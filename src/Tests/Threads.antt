-- ===== src/Tests/Threads.antt =====
-- Runs of the threads.
use xposed.Prelude.{pos, minus_one, ◌≡◌, refl, true, false, ℕ}
use xposed.FileSystem.{FileSystem}
use xposed.Membased.Client.{begin_call, call_service}
use xposed.Membased.Process.{fresh_state}
use xposed.Membased.Server.{server_turn, start_looper}
use xposed.Membased.Shared.{op_access_file, MemBasedState}
use xposed.Protocol.Defs.{
  wants, Request, access_request, put_request, outside, awaits, answered, waiting, System, wake,
  update, broadcast, read_result, starts, serves, calls, begins, Reach, start, later,
}
use xposed.Protocol.Invariant.{Served}
use xposed.Protocol.Race.{stale_answer}
use xposed.Protocol.Safety.{one_request, Reach-Served, Progress, no_deadlock}
use xposed.Tests.Service.{layout, path, hello, one_file, memory}

abbrev pub first : Request
first = access_request path 0

abbrev pub second : Request
second = access_request path 2

abbrev pub files : FileSystem
files = one_file hello 5

-- The looper runs and client 0 has begun.
abbrev pub begun : System
begun = record {
  memory =
      begin_call op_access_file
        (put_request layout first (start_looper (fresh_state memory.member)));
  server = waiting false;
  pc = broadcast (update (λ j. wake (outside)) 0 (wants first false)) 0 (awaits first true);
}

begun-Reach : Reach layout memory.member begun
unfolding start_looper
begun-Reach =
    later (later (later start (starts refl)) (calls 0 first refl)) (begins 0 first refl refl)

abbrev pub served : System
served = record {
  memory = server_turn layout files begun.memory;
  server = waiting true;
  pc = λ j. wake (begun.pc j);
}

served-Reach : Reach layout memory.member served
unfolding begin_call
served-Reach = later begun-Reach (serves files refl refl)

one_request_example : ◌≡◌ {A = ℕ} 0 0
one_request_example = one_request served-Reach 0 0 first first refl refl

Reach-Served_example : Served layout first served.memory
unfolding server_turn
Reach-Served_example = Reach-Served served-Reach 0 first refl refl

no_deadlock_example : Progress begun
no_deadlock_example = no_deadlock begun-Reach 0 refl

stale_answer_example :
    (s : System) × Reach layout memory.member s
    × (s.pc 0 ≡ answered minus_one 13)
    × ((sh : MemBasedState)
        → read_result layout first
            (call_service layout files op_access_file (put_request layout first sh))
          ≡ pos 0)
stale_answer_example = stale_answer layout memory.member files path path 0 2 13 refl refl
