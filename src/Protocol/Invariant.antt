-- ===== src/Protocol/Invariant.antt =====
-- One client at a time is served, its answer is its own, and no wake-up is lost.
use xposed.Prelude.{
  ℕ, ◌≡◌, refl, ◌≢◌, ◌⊎◌, Bool, true, false, Option, none, some, sym, ◌∙◌, inl, inr, arith, Bytes,
  ap, subst, some-injective,
}
use xposed.FileSystem.{FileSystem}
use xposed.Membased.Client.{begin_call, call_service, make_idle}
use xposed.Membased.ReadFile.{put_offset}
use xposed.Membased.Server.{server_turn, start_looper, serve_read}
use xposed.Membased.Shared.{
  State, state_not_running, state_idle, state_service_action, state_server_response, Member,
  MemBasedState, Layout, ReadFileData, read_file, read_member, op_read_file,
}
use xposed.Protocol.Defs.{
  Request, action_of, put_request, Pc, wants, awaits, ServerPc, launching, waiting, System, initial,
  outside, leaving, answered, wake, update, read_request, wake_server, broadcast, Step, starts,
  serves, server_waits, server_wakes, calls, waits_idle, begins, waits_response, next_chunk,
  makes_idle, returns, calls_again, wakes, Reach, start, later,
}

-- The request that a client has put into the memory.
abbrev pub pending : Pc → Option Request
pending (awaits r b) = some r
pending _ = none

-- The memory holds this request.
abbrev pub Requested : Layout → Request → MemBasedState → Type 0
Requested l r sh = (m : MemBasedState) × (sh ≡ begin_call (action_of r) (put_request l r m))

-- The memory is as `callService` leaves it for this request, in some state of the file system.
abbrev pub Served : Layout → Request → MemBasedState → Type 0
Served l r sh =
    (m : MemBasedState) × (fs : FileSystem) × (sh
      ≡ call_service l fs (action_of r) (put_request l r m))

-- What the memory holds while a client has put its request.
abbrev pub Holds : Layout → Request → MemBasedState → Type 0
Holds l r sh =
    ((sh.state ≡ state_service_action) × Requested l r sh)
    ⊎ ((sh.state ≡ state_server_response) × Served l r sh)

-- Between a request and the return to idle.
abbrev pub is_busy : State → Bool
is_busy state_not_running = false
is_busy state_idle = false
is_busy state_service_action = true
is_busy state_server_response = true

-- A thread sleeps only while what it waits for is not there.
abbrev pub SleepsWell : State → Pc → Type 0
SleepsWell st (wants r true) = st ≢ state_idle
SleepsWell st (awaits r true) = st ≢ state_server_response
SleepsWell st _ = Unit {0}

abbrev pub ServerFits : State → ServerPc → Type 0
ServerFits st launching = st ≡ state_not_running
ServerFits st (waiting true) = (st ≢ state_not_running) × (st ≢ state_service_action)
ServerFits st (waiting false) = st ≢ state_not_running

pub record Inv (l : Layout) (s : System) : Type 0 where
  pub unique :
      (i j : ℕ) (r q : Request) → pending (s.pc i) ≡ some r → pending (s.pc j) ≡ some q → i ≡ j
  pub held : (i : ℕ) (r : Request) → pending (s.pc i) ≡ some r → Holds l r s.memory
  pub owned : is_busy s.memory.state ≡ true → (i : ℕ) × (r : Request) × (pending (s.pc i) ≡ some r)
  pub sleeps : (i : ℕ) → SleepsWell s.memory.state (s.pc i)
  pub fits : ServerFits s.memory.state s.server

initial-Inv : (l : Layout) (m : Member) → Inv l (initial m)
initial-Inv l m = record {
  unique = λ i j r q h k. cc;
  held = λ i r h. cc;
  owned = λ h. cc;
  sleeps = λ i. tt;
  fits = refl;
}

pending-wake : (p : Pc) → pending (wake p) ≡ pending p
pending-wake (wants r b) = refl
pending-wake (awaits r b) = refl
pending-wake outside = refl
pending-wake (leaving r) = refl
pending-wake (answered v n) = refl

-- A thread that has just been woken is not asleep.
wake-SleepsWell : (st : State) (p : Pc) → SleepsWell st (wake p)
wake-SleepsWell st (wants r b) = tt
wake-SleepsWell st (awaits r b) = tt
wake-SleepsWell st outside = tt
wake-SleepsWell st (leaving r) = tt
wake-SleepsWell st (answered v n) = tt

pending-update :
    (f : ℕ → Pc) (i : ℕ) (p : Pc)
    → pending p ≡ pending (f i)
    → (j : ℕ) → pending (update f i p j) ≡ pending (f j)
pending-update f i p e j = ground arith

-- Sleeping clients that a change leaves alone, or wakes, are well.
update-SleepsWell :
    (st : State) (f : ℕ → Pc) (i : ℕ) (p : Pc)
    → SleepsWell st p
    → (j : ℕ) → SleepsWell st (f j)
    → SleepsWell st (update f i p j)
update-SleepsWell st f i p h j k = ground arith

-- A client that holds a request keeps the memory busy.
pub busy-held :
    (l : Layout) (r : Request) (sh : MemBasedState) → Holds l r sh → is_busy sh.state ≡ true
busy-held l r sh (inl (h, q)) = rw h
busy-held l r sh (inr (h, q)) = rw h

-- What a service does to the data of a chunk leaves its path alone.
path-serve_read :
    (fs : FileSystem) (l : Layout) (d : ReadFileData) (sh : MemBasedState)
    → sh.member ≡ read_file d
    → (read_member l (serve_read fs d sh).member).path ≡ d.path
unfolding serve_read
path-serve_read fs l d sh e = ground arith

path-Served :
    (l : Layout) (path : Bytes) (offset : ℕ) (sh : MemBasedState)
    → Served l (read_request path offset) sh
    → (read_member l sh.member).path ≡ path
unfolding call_service put_request
path-Served l path offset sh (m, fs, e) =
    let sent : MemBasedState =
      begin_call op_read_file (put_request l (read_request path offset) m) in
    let d : ReadFileData = record (read_member l m.member) { path = path; offset = offset } in
    ap (λ (x : MemBasedState). (read_member l x.member).path) e ∙ path-serve_read fs l d sent refl

-- The next chunk is asked for as if the request had been made afresh.
put_offset-put_request :
    (l : Layout) (path : Bytes) (next : ℕ) (sh : MemBasedState)
    → (read_member l sh.member).path ≡ path
    → put_offset l next sh ≡ put_request l (read_request path next) sh
unfolding put_offset put_request
put_offset-put_request l path next sh e =
    ap
      (λ (q : Bytes). record sh {
        member = read_file (record (read_member l sh.member) { path = q; offset = next });
      })
      e

Requested-of_action :
    (l : Layout) (r : Request) (sh : MemBasedState)
    → Holds l r sh
    → sh.state ≡ state_service_action
    → Requested l r sh
Requested-of_action l r sh (inl (h, q)) e = q
Requested-of_action l r sh (inr (h, q)) e = cc

pub Served-of_response :
    (l : Layout) (r : Request) (sh : MemBasedState)
    → Holds l r sh
    → sh.state ≡ state_server_response
    → Served l r sh
Served-of_response l r sh (inl (h, q)) e = cc
Served-of_response l r sh (inr (h, q)) e = q

module _ (l : Layout) {s : System} (inv : Inv l s) where
  -- With the memory not busy nobody has a request in it.
  nobody : is_busy s.memory.state ≡ false → (i : ℕ) (r : Request) → pending (s.pc i) ≢ some r
  nobody h i r e = ground (arith, busy-held l r s.memory (inv.held i r e))

  -- A step that leaves the memory and the requests alone.
  local-Inv :
      (i : ℕ) (p : Pc)
      → pending p ≡ pending (s.pc i)
      → SleepsWell s.memory.state p
      → Inv l (record s { pc = update s.pc i p })
  local-Inv i p e w = record {
    unique = λ a b r q h k.
        inv.unique a b r q (sym (pending-update s.pc i p e a) ∙ h)
          (sym (pending-update s.pc i p e b) ∙ k);
    held = λ a r h. inv.held a r (sym (pending-update s.pc i p e a) ∙ h);
    owned = λ h. let (a, r, k) = inv.owned h in (a, r, pending-update s.pc i p e a ∙ k);
    sleeps = λ a. update-SleepsWell s.memory.state s.pc i p w a (inv.sleeps a);
    fits = inv.fits;
  }

  server-Inv : (p : ServerPc) → ServerFits s.memory.state p → Inv l (record s { server = p })
  server-Inv p h = record {
    unique = inv.unique;
    held = inv.held;
    owned = inv.owned;
    sleeps = inv.sleeps;
    fits = h;
  }

  starts-Inv :
      s.server ≡ launching
      → Inv l (record {
        memory = start_looper s.memory;
        server = waiting true;
        pc = λ j. wake (s.pc j);
      })
  unfolding start_looper
  starts-Inv e = record {
    unique = λ i j r q h k.
        inv.unique i j r q (sym (pending-wake (s.pc i)) ∙ h) (sym (pending-wake (s.pc j)) ∙ k);
    held =
        λ i r h. absurd (nobody (ground (arith, inv.fits)) i r (sym (pending-wake (s.pc i)) ∙ h));
    owned = λ h. cc;
    sleeps = λ i. wake-SleepsWell _ (s.pc i);
    fits = (λ q. cc, λ q. cc);
  }

  serves-Inv :
      (fs : FileSystem)
      → s.memory.state ≡ state_service_action
      → Inv l (record {
        memory = server_turn l fs s.memory;
        server = waiting true;
        pc = λ j. wake (s.pc j);
      })
  unfolding server_turn call_service
  serves-Inv fs h = record {
    unique = λ i j r q h k.
        inv.unique i j r q (sym (pending-wake (s.pc i)) ∙ h) (sym (pending-wake (s.pc j)) ∙ k);
    held = λ i r k. inr (
      refl,
      served r
          (Requested-of_action l r s.memory (inv.held i r (sym (pending-wake (s.pc i)) ∙ k)) h),
    );
    owned = λ q. let (i, r, k) = inv.owned (rw h) in (i, r, pending-wake (s.pc i) ∙ k);
    sleeps = λ i. wake-SleepsWell _ (s.pc i);
    fits = (λ q. cc, λ q. cc);
  }
    where
      served : (r : Request) → Requested l r s.memory → Served l r (server_turn l fs s.memory)
      served r (m, e) = (m, fs, ap (server_turn l fs) e)

  -- What a broadcast by client `i` leaves pending, where no other client had a request.
  pending-broadcast :
      (i : ℕ) (p : Pc)
      → ((j : ℕ) (q : Request) → pending (s.pc j) ≡ some q → i ≡ j)
      → (j : ℕ) (q : Request) → pending (broadcast s.pc i p j) ≡ some q
      → (i ≡ j) × (pending p ≡ some q)
  pending-broadcast i p alone j q h = ground (arith, alone j q, pending-wake (s.pc j))

  -- A client puts a request into the memory while no other has one there.
  request-Inv :
      (i : ℕ) (r : Request) (sh : MemBasedState)
      → ((j : ℕ) (q : Request) → pending (s.pc j) ≡ some q → i ≡ j)
      → s.memory.state ≢ state_not_running
      → sh.state ≡ state_service_action
      → Requested l r sh
      → Inv l (record {
        memory = sh;
        server = wake_server s.server;
        pc = broadcast s.pc i (awaits r true);
      })
  request-Inv i r sh alone up st (m, e) = record {
    unique = λ a b q q' ha hb.
        sym (pending-broadcast i _ alone a q ha).0 ∙ (pending-broadcast i _ alone b q' hb).0;
    held = λ a q ha. inl (
      st,
      subst (λ (x : Request). Requested l x sh)
          (some-injective r q (pending-broadcast i (awaits r true) alone a q ha).1) (m, e),
    );
    owned = λ k. (i, r, ground arith);
    sleeps =
        λ a. update-SleepsWell _ (λ j. wake (s.pc j)) i _ (λ k. cc) a (wake-SleepsWell _ (s.pc a));
    fits = ground (arith, inv.fits);
  }

  begins-Inv :
      (i : ℕ) (r : Request)
      → s.memory.state ≡ state_idle
      → Inv l (record {
        memory = begin_call (action_of r) (put_request l r s.memory);
        server = wake_server s.server;
        pc = broadcast s.pc i (awaits r true);
      })
  unfolding begin_call
  begins-Inv i r h =
      request-Inv i r _ (λ j q k. absurd (nobody (rw h) j q k)) (λ k. cc) refl (s.memory, refl)

  next_chunk-Inv :
      (i : ℕ) (path : Bytes) (offset next : ℕ) (asleep : Bool)
      → s.pc i ≡ awaits (read_request path offset) asleep
      → s.memory.state ≡ state_server_response
      → Inv l (record {
        memory = begin_call op_read_file (put_offset l next s.memory);
        server = wake_server s.server;
        pc = broadcast s.pc i (awaits (read_request path next) true);
      })
  unfolding begin_call
  next_chunk-Inv i path offset next asleep e h =
      request-Inv i (read_request path next) _
        (λ j q k. inv.unique i j (read_request path offset) q (rw e) k) (λ k. cc) refl
        (
          s.memory,
          ap (begin_call op_read_file) (
              put_offset-put_request l path next s.memory (
                path-Served l path offset s.memory (
                  Served-of_response l (read_request path offset) s.memory
                    (inv.held i (read_request path offset) (rw e)) h))),
        )

  makes_idle-Inv :
      (i : ℕ) (r : Request) (asleep : Bool)
      → s.pc i ≡ awaits r asleep
      → s.memory.state ≡ state_server_response
      → Inv l (record {
        memory = make_idle s.memory;
        server = wake_server s.server;
        pc = broadcast s.pc i (leaving r);
      })
  unfolding make_idle
  makes_idle-Inv i r asleep e h = record {
    unique = λ a b q q' ha hb. absurd (none_left a q ha);
    held = λ a q ha. absurd (none_left a q ha);
    owned = λ k. cc;
    sleeps = λ a. update-SleepsWell _ (λ j. wake (s.pc j)) i _ tt a (wake-SleepsWell _ (s.pc a));
    fits = ground (arith, inv.fits);
  }
    where
      none_left : (a : ℕ) (q : Request) → pending (broadcast s.pc i (leaving r) a) ≢ some q
      none_left a q h =
          let k =
            (pending-broadcast i (leaving r) (λ j q k. inv.unique i j r q (rw e) k) a q h).1 in
          cc

-- Every step keeps the invariant.
pub Step-Inv : {l : Layout} {s t : System} → Step l s t → Inv l s → Inv l t
Step-Inv {l} (starts e) inv = starts-Inv l inv e
Step-Inv {l} (serves fs e h) inv = serves-Inv l inv fs h
Step-Inv {l} (server_waits e h) inv = server-Inv l inv (waiting true) (ground (arith, inv.fits), h)
Step-Inv {l} (server_wakes e) inv = server-Inv l inv (waiting false) (ground (arith, inv.fits))
Step-Inv {l} (calls i r e) inv = local-Inv l inv i (wants r false) (rw e) tt
Step-Inv {l} (waits_idle i r e h) inv = local-Inv l inv i (wants r true) (rw e) h
Step-Inv {l} (begins i r e h) inv = begins-Inv l inv i r h
Step-Inv {l} (waits_response i r e h) inv = local-Inv l inv i (awaits r true) (rw e) h
Step-Inv {l} (next_chunk i path offset next e h) inv =
    next_chunk-Inv l inv i path offset next false e h
Step-Inv {l} (makes_idle i r e h) inv = makes_idle-Inv l inv i r false e h
Step-Inv {l} (returns i r e) inv = local-Inv l inv i _ (rw e) tt
Step-Inv {l} (calls_again i v n e) inv = local-Inv l inv i outside (rw e) tt
Step-Inv {l} {s} (wakes i) inv =
    local-Inv l inv i (wake (s.pc i)) (pending-wake (s.pc i)) (wake-SleepsWell _ (s.pc i))

pub Reach-Inv : {l : Layout} {m : Member} {s : System} → Reach l m s → Inv l s
Reach-Inv {l} {m} start = initial-Inv l m
Reach-Inv (later r st) = Step-Inv st (Reach-Inv r)
