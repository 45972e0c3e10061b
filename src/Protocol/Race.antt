-- ===== src/Protocol/Race.antt =====
-- `accessFile` and `statFile` read `shared->error` and the result after `makeIdle` has released the
-- mutex. What that allows.
use xposed.Prelude.{Bytes, pos, minus_one, ℕ, ◌≡◌, refl, ap, ◌∙◌, arith}
use xposed.FileSystem.{done, fails, FileSystem}
use xposed.Membased.Answers.{sys_value, sys_errno}
use xposed.Membased.Client.{make_idle, call_service}
use xposed.Membased.Server.{start_looper}
use xposed.Membased.Shared.{op_access_file, Member, MemBasedState, Layout}
use xposed.Protocol.Defs.{
  Request, access_request, action_of, put_request, leaving, answered, System, update, read_result,
  starts, serves, calls, begins, makes_idle, returns, Reach, start, later,
}

-- A run in which client 0 has left its call and has not yet read its result, while the memory
-- already holds the answer to a request of client 1.
record Overtaken (l : Layout) (m : Member) (fs : FileSystem) (r q : Request) : Type 0 where
  last : System
  reach : Reach l m last
  before : MemBasedState
  here : last.pc 0 ≡ leaving r
  memory : last.memory ≡ call_service l fs (action_of q) (put_request l q before)

overtaken : (l : Layout) (m : Member) (fs : FileSystem) (r q : Request) → Overtaken l m fs r q
unfolding start_looper call_service make_idle
overtaken l m fs r q = record {
  last = _;
  reach =
      later
        (later
          (later
            (later
              (later
                (later (later (later start (starts refl)) (calls 0 r refl)) (begins 0 r refl refl))
                (serves fs refl refl))
              (makes_idle 0 r refl refl))
            (calls 1 q refl))
          (begins 1 q refl refl))
        (serves fs refl refl);
  before = _;
  here = refl;
  memory = refl;
}

-- What the service answers to `accessFile`, as a client reads it that may have asked for another path.
access_answer :
    (l : Layout) (fs : FileSystem) (path : Bytes) (mode : ℕ) (sh : MemBasedState) (asked : Bytes)
    (asked_mode : ℕ)
    → (let r = access_request path mode in
        let reply = call_service l fs op_access_file (put_request l r sh) in
        (read_result l (access_request asked asked_mode) reply ≡ sys_value (fs.access path mode))
        × (reply.error ≡ sys_errno (fs.access path mode)))
unfolding call_service put_request read_result
access_answer l fs path mode sh asked asked_mode = ground arith

-- A client that asks for a file which the service may access can be told that it may not, with the
-- `errno` of another client's request: for every two such requests there is a run that ends so.
-- Alone, the first request is answered with 0.
pub stale_answer :
    (l : Layout) (m : Member) (fs : FileSystem) (path path' : Bytes) (mode mode' n : ℕ)
    → fs.access path mode ≡ done tt
    → fs.access path' mode' ≡ fails n
    → (s : System) × Reach l m s
      × (s.pc 0 ≡ answered minus_one n)
      × ((sh : MemBasedState)
          → read_result l
              (access_request path mode)
              (call_service l fs op_access_file (put_request l (access_request path mode) sh))
            ≡ pos 0)
stale_answer l m fs path path' mode mode' n allowed denied = (
  record o.last { pc = update o.last.pc 0 _ },
  later o.reach (returns 0 (access_request path mode) o.here),
  λ i. answered (value i) (errno i),
  λ sh. (access_answer l fs path mode sh path mode).0 ∙ ap sys_value allowed,
)
  where
    o : Overtaken l m fs (access_request path mode) (access_request path' mode')
    o = overtaken l m fs (access_request path mode) (access_request path' mode')

    value : read_result l (access_request path mode) o.last.memory ≡ minus_one
    value =
        ap (read_result l (access_request path mode)) o.memory
        ∙ (access_answer l fs path' mode' o.before path mode).0
        ∙ ap sys_value denied

    errno : o.last.memory.error ≡ n
    errno =
        ap (λ (x : MemBasedState). x.error) o.memory
        ∙ (access_answer l fs path' mode' o.before path mode).1
        ∙ ap sys_errno denied
