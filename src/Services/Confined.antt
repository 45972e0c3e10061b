-- ===== src/Services/Confined.antt =====
-- What the services have given up before they serve.
use xposed.Prelude.{if◌then◌else◌, ◌≡◌, Bool, true, false, not, ◌&&◌, ◌||◌, List, [], ◌∷◌, arith}
use xposed.Services.Daemons.{
  start_all, start_membased, Deed, sets_name, switches_user, drops_capabilities, sets_context,
  adds_service, starts_looper, serves_binder, serves_memory, exits_failure, Steps, enter_context,
  system_service, app_service, zygote_service, check_membased_running,
}

-- The rights given up so far.
pub record Rights : Type 0 where
  pub has_user : Bool
  pub has_no_capabilities : Bool
  pub has_context : Bool

-- Whether a process that must have these rights before it registers or serves does so.
pub is_confined : (needs_user needs_context : Bool) → Rights → List Deed → Bool
is_confined needs_user needs_context r [] = true
is_confined needs_user needs_context r (d ∷ ds) =
    let ready : Bool =
      (not needs_user || r.has_user)
      && r.has_no_capabilities
      && (not needs_context || r.has_context) in
    elim d [
      | sets_name ↦ is_confined needs_user needs_context r ds
      | switches_user ↦ is_confined needs_user needs_context (record r { has_user = true }) ds
      | drops_capabilities ↦
          is_confined needs_user needs_context (record r { has_no_capabilities = true }) ds
      | sets_context ↦ is_confined needs_user needs_context (record r { has_context = true }) ds
      | adds_service ↦ ready && is_confined needs_user needs_context r ds
      | starts_looper ↦ ready && is_confined needs_user needs_context r ds
      | serves_binder ↦ ready && is_confined needs_user needs_context r ds
      | serves_memory ↦ ready && is_confined needs_user needs_context r ds
      | exits_failure ↦ true
    ]

abbrev pub privileged : Rights
privileged = record { has_user = false; has_no_capabilities = false; has_context = false }

-- No service registers or serves before it dropped its capabilities and, where SELinux is enabled,
-- entered its context; those that run in the app's context have the installer's user by then.
pub services-is_confined :
    (with_selinux : Bool) (k : Steps)
    → (is_confined false
          (with_selinux && k.selinux_enabled)
          privileged
          (system_service with_selinux k)
        ≡ true)
      × (is_confined true
            (with_selinux && k.selinux_enabled)
            privileged
            (app_service with_selinux k)
          ≡ true)
      × (is_confined true true privileged (zygote_service with_selinux k) ≡ true)
unfolding is_confined system_service app_service zygote_service enter_context
services-is_confined with_selinux k = (ground arith, ground arith, ground arith)

-- `startAll` starts the process in the system's context first and the app's only after it; and where
-- it succeeds both run, and under SELinux the memory-based service answered in time.
-- `startMembased` reports success exactly if there is nothing to do or its process answered.
pub start_all-success :
    (with_selinux : Bool) (k : Steps)
    → ((start_all with_selinux k).success ≡ (
        k.forks_first
        && k.forks_second
        && (not k.selinux_enabled || (k.init_memory && k.waits_running))))
      × ((start_all with_selinux k).children ≡ (
          if k.forks_first && (not k.selinux_enabled || k.init_memory)
          then system_service with_selinux k
            ∷ (if k.forks_second then app_service with_selinux k ∷ [] else [])
          else []))
      × ((start_membased k).success
          ≡ (not k.selinux_enabled || (k.init_memory && k.forks_first && k.waits_running)))
unfolding start_all start_membased check_membased_running
start_all-success with_selinux k = (ground arith, ground arith, ground arith)
