-- ===== src/Protocol/Safety.antt =====
-- What holds in every state that the threads can reach.
use xposed.Prelude.{ℕ, ◌≡◌, Bool, true, false, some, refl, ap, subst}
use xposed.Membased.Shared.{
  state_idle, state_service_action, state_server_response, Member, Layout, State, state_not_running,
}
use xposed.Protocol.Defs.{
  Request, Pc, outside, wants, awaits, leaving, answered, launching, waiting, System, Reach,
  ServerPc,
}
use xposed.Protocol.Invariant.{
  pending, Served, Inv, Reach-Inv, is_busy, SleepsWell, ServerFits, busy-held, Served-of_response,
}

-- At any time at most one client has a request with the service: no interleaving lets a second one
-- begin while the first waits, though waiting releases the mutex.
pub one_request :
    {l : Layout} {m : Member} {s : System}
    → Reach l m s
    → (i j : ℕ) (r q : Request) → pending (s.pc i) ≡ some r
    → pending (s.pc j) ≡ some q
    → i ≡ j
one_request {l} {m} {s} reach i j r q e k = let inv = Reach-Inv reach in inv.unique i j r q e k

-- Once the service has answered, the memory is exactly as `callService` leaves it for the waiting
-- client's own request: it is not handed another request's data.
pub Reach-Served :
    {l : Layout} {m : Member} {s : System}
    → Reach l m s
    → (i : ℕ) (r : Request) → pending (s.pc i) ≡ some r
    → s.memory.state ≡ state_server_response
    → Served l r s.memory
Reach-Served {l} {m} {s} reach i r e h =
    let inv = Reach-Inv reach in Served-of_response l r s.memory (inv.held i r e) h

-- A thread that can go on at once.
pub data Progress (s : System) : Type 0 where
  server_starts : s.server ≡ launching → Progress s
  server_serves : s.server ≡ waiting false → s.memory.state ≡ state_service_action → Progress s
  client_begins :
      (j : ℕ) (r : Request) → s.pc j ≡ wants r false → s.memory.state ≡ state_idle → Progress s
  client_gets :
      (j : ℕ) (r : Request)
      → s.pc j ≡ awaits r false
      → s.memory.state ≡ state_server_response
      → Progress s

-- Waiting for the service, to be free or to answer.
abbrev pub is_waiting : Pc → Bool
is_waiting (wants r b) = true
is_waiting (awaits r b) = true
is_waiting _ = false

module _ {l : Layout} {s : System} (inv : Inv l s) where
  -- With the service idle, a client that waits wants it, and is awake.
  idle-Progress :
      (i : ℕ) (p : Pc) → s.pc i ≡ p → is_waiting p ≡ true → s.memory.state ≡ state_idle → Progress s
  idle-Progress i (wants r false) e w h = client_begins i r e h
  idle-Progress i (wants r true) e w h =
      absurd (subst (SleepsWell s.memory.state) e (inv.sleeps i) h)
  idle-Progress i (awaits r b) e w h =
      let busy = busy-held l r s.memory (inv.held i r (ap pending e)) in
      let idle : is_busy s.memory.state ≡ false = ap is_busy h in cc
  idle-Progress i outside e w h = cc
  idle-Progress i (leaving r) e w h = cc
  idle-Progress i (answered v n) e w h = cc

  -- With an action pending, the server is awake.
  action-Progress :
      (p : ServerPc) → s.server ≡ p → s.memory.state ≡ state_service_action → Progress s
  action-Progress launching e h = server_starts e
  action-Progress (waiting false) e h = server_serves e h
  action-Progress (waiting true) e h = absurd ((subst (ServerFits s.memory.state) e inv.fits).1 h)

  -- With the answer there, the client that it is for is awake.
  response-Progress :
      (j : ℕ) (r : Request) (p : Pc)
      → s.pc j ≡ p
      → pending p ≡ some r
      → s.memory.state ≡ state_server_response
      → Progress s
  response-Progress j r (awaits q false) e k h = client_gets j q e h
  response-Progress j r (awaits q true) e k h =
      absurd (subst (SleepsWell s.memory.state) e (inv.sleeps j) h)
  response-Progress j r (wants q b) e k h = cc
  response-Progress j r outside e k h = cc
  response-Progress j r (leaving q) e k h = cc
  response-Progress j r (answered v n) e k h = cc

  state-Progress :
      (st : State) (p : ServerPc)
      → s.memory.state ≡ st
      → s.server ≡ p
      → (i : ℕ) → is_waiting (s.pc i) ≡ true
      → Progress s
  state-Progress state_not_running launching h e i w = server_starts e
  state-Progress state_not_running (waiting true) h e i w =
      absurd ((subst (ServerFits s.memory.state) e inv.fits).0 h)
  state-Progress state_not_running (waiting false) h e i w =
      absurd (subst (ServerFits s.memory.state) e inv.fits h)
  state-Progress state_idle p h e i w = idle-Progress i (s.pc i) refl w h
  state-Progress state_service_action p h e i w = action-Progress p e h
  state-Progress state_server_response p h e i w =
      let (j, r, k) = inv.owned (rw h) in response-Progress j r (s.pc j) refl k h

-- No deadlock and no lost wake-up: in every reachable state in which some client waits for the
-- service, a thread that is awake can go on: the server starts or serves, a client begins a call, or
-- the client that was answered takes the answer.
pub no_deadlock :
    {l : Layout} {m : Member} {s : System}
    → Reach l m s
    → (i : ℕ) → is_waiting (s.pc i) ≡ true
    → Progress s
no_deadlock {s} reach i w = state-Progress (Reach-Inv reach) s.memory.state s.server refl refl i w
