-- ===== src/Startup/Boot.antt =====
-- `initialize`, xposed.cpp lines 78-142. What it calls is answered by a record.
use xposed.Prelude.{if◌then◌else◌, Bool, true, false, not, ◌&&◌, ◌||◌, List, [], ◌∷◌, ◌++◌}

-- The build's switches.
pub record Build : Type 0 where
  pub enable_for_tools : Bool
  pub with_selinux : Bool

-- What the functions that are called answer. `is_disabled` is what `isDisabled` finds, given whether
-- `disableXposed` was called; `adds_jar` is what `addJarToClasspath` returns.
pub record Calls : Type 0 where
  pub is_minimal : Bool
  pub selinux_enabled : Bool
  pub finds_installer : Bool
  pub starts_all : Bool
  pub starts_membased : Bool
  pub is_safemode_disabled : Bool
  pub skips_delay : Bool
  pub is_triggered : (skip_delay : Bool) → Bool
  pub is_disabled : (was_disabled : Bool) → Bool
  pub ignores_command : Bool
  pub adds_jar : Bool

-- What happens, in order.
pub data Event : Type 0 where
  startup_marker : Event
  sleep_10 : Event
  rom_info : Event
  find_installer : Event
  start_all : Event
  start_logcat : Event
  start_membased : Event
  restrict_memory : Event
  detect_trigger : Event
  disable_xposed : Event
  add_jar : Event

-- Events before the rest.
abbrev pub after : List Event → Bool × List Event → Bool × List Event
after es r = (r.0, es ++ r.1)

module _ (b : Build) (k : Calls) (zygote start_system_server : Bool) where
  abbrev pub is_selinux_enabled : Bool
  is_selinux_enabled = b.with_selinux && k.selinux_enabled

  -- Lines 137-141.
  unfoldable pub load : (was_disabled : Bool) → Bool × List Event
  load was_disabled =
      if k.is_disabled was_disabled || (not zygote && k.ignores_command)
      then (false, [])
      else (k.adds_jar, add_jar ∷ [])

  -- Lines 133-135.
  unfoldable pub check_safemode : Bool × List Event
  check_safemode =
      if zygote && not k.is_safemode_disabled
      then after (detect_trigger ∷ []) (
          if k.is_triggered k.skips_delay
          then after (disable_xposed ∷ []) (load true)
          else load false)
      else load false

  -- Lines 125-130.
  unfoldable pub restrict_forks : Bool × List Event
  restrict_forks =
      if is_selinux_enabled then after (restrict_memory ∷ []) check_safemode else check_safemode

  -- Lines 112-123.
  unfoldable pub start_services : Bool × List Event
  start_services =
      if start_system_server
      then if not k.finds_installer
        then (false, find_installer ∷ [])
        else if not k.starts_all
        then (false, find_installer ∷ start_all ∷ [])
        else after (find_installer ∷ start_all ∷ start_logcat ∷ []) restrict_forks
      else if is_selinux_enabled
      then if not k.starts_membased
        then (false, start_membased ∷ [])
        else after (start_membased ∷ []) restrict_forks
      else restrict_forks

  unfoldable pub initialize : Bool × List Event
  initialize =
      if not b.enable_for_tools && not zygote
      then (false, [])
      else if k.is_minimal
      then (false, [])
      else after
          (if start_system_server
            then startup_marker ∷ []
            else if zygote
            then sleep_10 ∷ []
            else [])
          (after (rom_info ∷ []) start_services)
