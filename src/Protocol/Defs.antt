-- ===== src/Protocol/Defs.antt =====
-- The threads and their steps.
use xposed.Prelude.{◌==◌, if◌then◌else◌, Bytes, ℤ, pos, ℕ, ◌≡◌, ◌≢◌, Bool, true, false}
use xposed.FileSystem.{FileSystem}
use xposed.Membased.Client.{begin_call, make_idle, put_access, put_stat, outcome}
use xposed.Membased.Process.{fresh_state}
use xposed.Membased.ReadFile.{put_offset}
use xposed.Membased.Server.{server_turn, start_looper}
use xposed.Membased.Shared.{
  state_idle, state_service_action, state_server_response, Action, op_access_file, op_stat_file,
  op_read_file, Member, read_file, MemBasedState, Layout, access_member, stat_member, read_member,
}

-- What a client asks of the service: `accessFile`, `statFile`, or a chunk for `readFile`.
pub data Request : Type 0 where
  access_request : Bytes → ℕ → Request
  stat_request : Bytes → Request
  read_request : Bytes → ℕ → Request

abbrev pub action_of : Request → Action
action_of (access_request path mode) = op_access_file
action_of (stat_request path) = op_stat_file
action_of (read_request path offset) = op_read_file

unfoldable pub put_request : Layout → Request → MemBasedState → MemBasedState
unfolding put_access put_stat
put_request l (access_request path mode) sh = put_access l path mode sh
put_request l (stat_request path) sh = put_stat l path sh
put_request l (read_request path offset) sh = record sh {
  member = read_file (record (read_member l sh.member) { path = path; offset = offset });
}

-- Where a client stands. The Boolean says whether it is asleep.
pub data Pc : Type 0 where
  outside : Pc  -- not in a call
  wants : Request → Bool → Pc  -- in `waitForIdle`
  awaits : Request → Bool → Pc  -- in the wait of `callService`
  leaving : Request → Pc  -- behind `makeIdle`, before it reads the error and the result
  answered : ℤ → ℕ → Pc  -- returned, with this value and `errno`

pub data ServerPc : Type 0 where
  launching : ServerPc
  waiting : Bool → ServerPc

pub record System : Type 0 where
  pub memory : MemBasedState
  pub server : ServerPc
  pub pc : ℕ → Pc

abbrev pub wake : Pc → Pc
wake (wants r b) = wants r false
wake (awaits r b) = awaits r false
wake p = p

abbrev pub wake_server : ServerPc → ServerPc
wake_server launching = launching
wake_server (waiting b) = waiting false

abbrev pub update : (ℕ → Pc) → ℕ → Pc → ℕ → Pc
update f i p j = if i == j then p else f j

-- `pthread_cond_broadcast`, by a client that goes on to `p`.
abbrev pub broadcast : (ℕ → Pc) → ℕ → Pc → ℕ → Pc
broadcast f i p = update (λ j. wake (f j)) i p

-- `shared->error ? -1 : data->result`; for a chunk the error alone counts.
unfoldable pub read_result : Layout → Request → MemBasedState → ℤ
unfolding outcome
read_result l (access_request path mode) sh = outcome sh.error (access_member l sh.member).result
read_result l (stat_request path) sh = outcome sh.error (stat_member l sh.member).result
read_result l (read_request path offset) sh = outcome sh.error (pos 0)

pub data Step (l : Layout) (s : System) : System → Type 0 where
  starts :
      s.server ≡ launching
      → Step l s (record {
        memory = start_looper s.memory;
        server = waiting true;
        pc = λ j. wake (s.pc j);
      })
  serves :
      (fs : FileSystem)
      → s.server ≡ waiting false
      → s.memory.state ≡ state_service_action
      → Step l s (record {
        memory = server_turn l fs s.memory;
        server = waiting true;
        pc = λ j. wake (s.pc j);
      })
  server_waits :
      s.server ≡ waiting false
      → s.memory.state ≢ state_service_action
      → Step l s (record s { server = waiting true })
  server_wakes : s.server ≡ waiting true → Step l s (record s { server = waiting false })
  calls :
      (i : ℕ) (r : Request)
      → s.pc i ≡ outside
      → Step l s (record s { pc = update s.pc i (wants r false) })
  waits_idle :
      (i : ℕ) (r : Request)
      → s.pc i ≡ wants r false
      → s.memory.state ≢ state_idle
      → Step l s (record s { pc = update s.pc i (wants r true) })
  begins :
      (i : ℕ) (r : Request)
      → s.pc i ≡ wants r false
      → s.memory.state ≡ state_idle
      → Step l s (record {
        memory = begin_call (action_of r) (put_request l r s.memory);
        server = wake_server s.server;
        pc = broadcast s.pc i (awaits r true);
      })
  waits_response :
      (i : ℕ) (r : Request)
      → s.pc i ≡ awaits r false
      → s.memory.state ≢ state_server_response
      → Step l s (record s { pc = update s.pc i (awaits r true) })
  next_chunk :
      (i : ℕ) (path : Bytes) (offset next : ℕ)
      → s.pc i ≡ awaits (read_request path offset) false
      → s.memory.state ≡ state_server_response
      → Step l s (record {
        memory = begin_call op_read_file (put_offset l next s.memory);
        server = wake_server s.server;
        pc = broadcast s.pc i (awaits (read_request path next) true);
      })
  makes_idle :
      (i : ℕ) (r : Request)
      → s.pc i ≡ awaits r false
      → s.memory.state ≡ state_server_response
      → Step l s (record {
        memory = make_idle s.memory;
        server = wake_server s.server;
        pc = broadcast s.pc i (leaving r);
      })
  returns :
      (i : ℕ) (r : Request)
      → s.pc i ≡ leaving r
      → Step l s
          (record s { pc = update s.pc i (answered (read_result l r s.memory) s.memory.error) })
  calls_again :
      (i : ℕ) (v : ℤ) (errno : ℕ)
      → s.pc i ≡ answered v errno
      → Step l s (record s { pc = update s.pc i outside })
  wakes : (i : ℕ) → Step l s (record s { pc = update s.pc i (wake (s.pc i)) })

-- The system behind `init`, with the looper not yet running.
abbrev pub initial : Member → System
initial m = record { memory = fresh_state m; server = launching; pc = λ _. outside }

pub data Reach (l : Layout) (m : Member) : System → Type 0 where
  start : Reach l m (initial m)
  later : {s t : System} → Reach l m s → Step l s t → Reach l m t
