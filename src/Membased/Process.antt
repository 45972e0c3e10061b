-- ===== src/Membased/Process.antt =====
-- xposed_service.cpp, lines 97-149: which process may use the shared memory.
use xposed.Prelude.{◌==◌, if◌then◌else◌, ℕ, ◌≡◌, ◌≢◌, Bool, true, false, not, ◌&&◌, ◌||◌, arith}
use xposed.Membased.Shared.{state_not_running, op_none, Member, MemBasedState}
use xposed.Platform.{Errnos}

-- The variables of the namespace, with what the kernel keeps for the process: whether the shared
-- memory is mapped in it, and whether a fork leaves that mapping out (`MADV_DONTFORK`).
pub record Process : Type 0 where
  pub pid : ℕ
  pub shared : Bool
  pub zygote_pid : ℕ
  pub can_always_access_service : Bool
  pub errno : ℕ
  pub mapped : Bool
  pub dontfork : Bool

-- The variables as the program starts.
unfoldable pub launched : ℕ → Process
launched pid = record {
  pid = pid;
  shared = false;
  zygote_pid = 0;
  can_always_access_service = false;
  errno = 0;
  mapped = false;
  dontfork = false;
}

-- The memory as `init` leaves it. The union has not been written yet.
abbrev pub fresh_state : Member → MemBasedState
fresh_state m = record { state = state_not_running; action = op_none; error = 0; member = m }

-- `init`, given whether the `mmap` succeeds.
unfoldable pub init : Bool → Process → Bool × Process
init false p = (false, record p { shared = false })
init true p = (
  true,
  record p {
    shared = true;
    zygote_pid = p.pid;
    can_always_access_service = true;
    mapped = true;
    dontfork = false;
  },
)

unfoldable pub restrict_memory_inheritance : Process → Process
restrict_memory_inheritance p = record p { dontfork = true; can_always_access_service = false }

unfoldable pub is_service_accessible : Errnos → Process → Bool × Process
is_service_accessible e p =
    if not p.can_always_access_service && (not p.shared || not (p.zygote_pid == p.pid))
    then (false, record p { shared = false; errno = e.eperm })
    else (true, p)

-- A check that passes changes nothing.
pub accessible-same :
    (e : Errnos) (p : Process)
    → (is_service_accessible e p).0 ≡ true
    → is_service_accessible e p ≡ (true, p)
unfolding is_service_accessible
accessible-same e p h = ground arith

-- A child gets the variables, and the mapping unless it was restricted.
unfoldable pub fork : ℕ → Process → Process
fork child p = record p { pid = child; mapped = p.mapped && not p.dontfork }

-- The life of the Zygote's processes: set-up, restriction, checks and forks. `init` is not called while
-- an earlier set-up is in force: `startMembased` calls it once, as the program starts. A child
-- never has the Zygote's process id, since the Zygote outlives it.
pub data Life (e : Errnos) : Process → Type 0 where
  launch : (pid : ℕ) → Life e (launched pid)
  inits :
      (ok : Bool) {p : Process}
      → p.can_always_access_service ≡ false
      → Life e p
      → Life e (init ok p).1
  restricts : {p : Process} → Life e p → Life e (restrict_memory_inheritance p)
  checks : {p : Process} → Life e p → Life e (is_service_accessible e p).1
  forks : (child : ℕ) {p : Process} → child ≢ p.zygote_pid → Life e p → Life e (fork child p)

-- What the variables promise about the pointer and the mapping.
pub record IsGuarded (p : Process) : Type 0 where
  pub always :
      p.can_always_access_service ≡ true
      → (p.shared ≡ true) × (p.mapped ≡ true) × (p.dontfork ≡ false)
  pub zygote : p.zygote_pid ≡ p.pid → p.shared ≡ true → p.mapped ≡ true

Life-IsGuarded : {e : Errnos} {p : Process} → Life e p → IsGuarded p
unfolding launched init restrict_memory_inheritance is_service_accessible fork
Life-IsGuarded (launch pid) = ground arith
Life-IsGuarded (inits true not_yet r) = ground (arith, Life-IsGuarded r)
Life-IsGuarded (inits false not_yet r) = let h = Life-IsGuarded r in ground arith
Life-IsGuarded (restricts r) = let h = Life-IsGuarded r in ground arith
Life-IsGuarded (checks r) = let h = Life-IsGuarded r in ground arith
Life-IsGuarded (forks child ne r) = let h = Life-IsGuarded r in ground arith

-- In every process of the Zygote's family that `isServiceAccessible` lets pass, `shared` is not null
-- and the memory is mapped. `init` is not called while an earlier set-up is in force, and no child
-- has the process id of the Zygote.
pub accessible-mapped :
    {e : Errnos} {p : Process}
    → Life e p
    → (is_service_accessible e p).0 ≡ true
    → ((is_service_accessible e p).1.shared ≡ true) × ((is_service_accessible e p).1.mapped ≡ true)
unfolding is_service_accessible
accessible-mapped r h = let g = Life-IsGuarded r in ground arith

-- Whatever the process, once it has restricted the memory every child that it forks is refused:
-- the check answers false, forgets the pointer and sets `errno` to EPERM. The process itself is
-- still served if it is the one that set the memory up.
pub restrict-fork_refused :
    (e : Errnos) (p : Process) (child : ℕ)
    → child ≢ p.zygote_pid
    → ((is_service_accessible e (fork child (restrict_memory_inheritance p))).0 ≡ false)
      × ((is_service_accessible e (fork child (restrict_memory_inheritance p))).1.errno ≡ e.eperm)
      × ((is_service_accessible e (fork child (restrict_memory_inheritance p))).1.shared ≡ false)
      × ((is_service_accessible e (restrict_memory_inheritance (init true p).1)).0 ≡ true)
unfolding is_service_accessible fork restrict_memory_inheritance init
restrict-fork_refused e p child ne = ground arith
