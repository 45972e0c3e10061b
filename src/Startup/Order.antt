-- ===== src/Startup/Order.antt =====
-- When Xposed is loaded, and in which order the start of the zygote does things.
use xposed.Prelude.{if◌then◌else◌, ◌≡◌, Bool, true, false, not, ◌&&◌, ◌||◌, List, [], ◌∷◌, arith}
use xposed.Startup.Boot.{
  Build, Calls, Event, start_all, start_membased, restrict_memory, load, check_safemode,
  restrict_forks, start_services, initialize,
}

-- Whether safe mode was asked for.
unfoldable pub is_safemode : Calls → (zygote : Bool) → Bool
is_safemode k zygote = zygote && not k.is_safemode_disabled && k.is_triggered k.skips_delay

-- Whether the services that the mode of the start needs are running.
pub has_services : Build → Calls → (start_system_server : Bool) → Bool
has_services b k start_system_server =
    if start_system_server
    then k.finds_installer && k.starts_all
    else not (b.with_selinux && k.selinux_enabled) || k.starts_membased

-- The start of the zygote loads Xposed exactly if it is built for the process, the framework is the
-- full one, the services that the mode needs could be started, Xposed is not disabled (after safe
-- mode had its chance to disable it), the command is not one to ignore, and the jar could be added.
pub initialize-loads :
    (b : Build) (k : Calls) (zygote start_system_server : Bool)
    → (initialize b k zygote start_system_server).0 ≡ (
        (b.enable_for_tools || zygote)
        && not k.is_minimal
        && has_services b k start_system_server
        && not (k.is_disabled (is_safemode k zygote))
        && (zygote || not k.ignores_command)
        && k.adds_jar)
unfolding initialize has_services is_safemode start_services restrict_forks check_safemode load
initialize-loads b k zygote start_system_server = ground arith

-- Whether the shared memory is only restricted when a service was started before.
pub is_ordered : (started : Bool) → List Event → Bool
is_ordered started [] = true
is_ordered started (start_all ∷ es) = is_ordered true es
is_ordered started (start_membased ∷ es) = is_ordered true es
is_ordered started (restrict_memory ∷ es) = started && is_ordered started es
is_ordered started (e ∷ es) = is_ordered started es

pub has_restriction : List Event → Bool
has_restriction [] = false
has_restriction (restrict_memory ∷ es) = true
has_restriction (e ∷ es) = has_restriction es

-- On every path the shared memory is restricted only after the start of a service that uses it.
initialize-is_ordered :
    (b : Build) (k : Calls) (zygote start_system_server : Bool)
    → is_ordered false (initialize b k zygote start_system_server).1 ≡ true
unfolding initialize is_ordered start_services restrict_forks check_safemode load
initialize-is_ordered b k zygote start_system_server = ground arith

-- Where Xposed is loaded, the shared memory has been restricted exactly if SELinux is enabled.
initialize-has_restriction :
    (b : Build) (k : Calls) (zygote start_system_server : Bool)
    → (initialize b k zygote start_system_server).0 ≡ true
    → has_restriction (initialize b k zygote start_system_server).1
      ≡ (b.with_selinux && k.selinux_enabled)
unfolding initialize has_restriction start_services restrict_forks check_safemode load
initialize-has_restriction b k zygote start_system_server loaded = ground arith
