-- ===== src/Tests/Boot.antt =====
-- The start of the zygote and the keys at concrete inputs.
use xposed.Prelude.{
  bytes_of, Bytes, drop, any, ◌≡◌, refl, true, false, not, ◌&&◌, ◌||◌, none, some, List, [], ◌∷◌,
  map, arith, ℤ, pos, negsuc,
}
use xposed.FileSystem.{done, fails}
use xposed.Run.{returned}
use xposed.Safemode.Defs.{Entry, open_key_devices}
use xposed.Safemode.Devices.{key_devices, all_held, the_key, open_key_devices-key_devices}
use xposed.Startup.Boot.{Build, Calls, initialize}
use xposed.Startup.Commands.{has_user_after_component, should_ignore_command-any}
use xposed.Startup.Defs.{
  strrchr, is_result_of_su, is_superuser_component, scan_arguments, should_ignore_command, art,
  runtime_of_line, scan_lines, fgets, determine_runtime,
}
use xposed.Startup.Dropping.{is_kept, has_capability, IsEnded, drop_capabilities-is_kept}
use xposed.Startup.Order.{is_safemode, has_services, initialize-loads}
use xposed.Startup.Properties.{
  is_space, split_at, skip_spaces, trim_end, until_newline, parse_line, handle_entry, parse_lines,
  parse_xposed_prop,
}
use xposed.Startup.Rights.{Installer, Answers, Credentials, drop_capabilities}
use xposed.Startup.Written.{AllSpaces, IsKey, IsValue, parse_line-written}
use xposed.Tests.Service.{some_stat}

abbrev pub build : Build
build = record { enable_for_tools = false; with_selinux = true }

abbrev pub good_calls : Calls
good_calls = record {
  is_minimal = false;
  selinux_enabled = true;
  finds_installer = true;
  starts_all = true;
  starts_membased = true;
  is_safemode_disabled = false;
  skips_delay = true;
  is_triggered = λ skip. false;
  is_disabled = λ was. was;
  ignores_command = false;
  adds_jar = true;
}

initialize-loads_example : (initialize build good_calls true true).0 ≡ (
    true
    && true
    && has_services build good_calls true
    && not (is_safemode good_calls true)
    && true
    && true)
initialize-loads_example = initialize-loads build good_calls true true

abbrev pub su_command : List Bytes
su_command =
    bytes_of "am"
    ∷ bytes_of "x"
    ∷ bytes_of "start"
    ∷ bytes_of "a.SuReceiver"
    ∷ bytes_of "--user"
    ∷ []

should_ignore_command-any_example :
    should_ignore_command (bytes_of "com.android.commands.am.Am") su_command
    ≡ (any is_result_of_su (drop 3 su_command) || has_user_after_component (drop 3 su_command))
should_ignore_command-any_example =
    should_ignore_command-any (bytes_of "com.android.commands.am.Am") su_command

-- The command is ignored.
su_command-ignored : should_ignore_command (bytes_of "com.android.commands.am.Am") su_command ≡ true
unfolding should_ignore_command scan_arguments is_result_of_su is_superuser_component strrchr
su_command-ignored = refl

-- The runtime is found from the last component of a line.
maps-art :
    determine_runtime (some (bytes_of "4000 r-xp\n5000 r-xp /system/lib/libart.so\n")) ≡ some art
unfolding determine_runtime scan_lines runtime_of_line strrchr fgets
maps-art = refl

-- A device with key 1, which is down.
abbrev pub device : Entry
device = record { name = bytes_of "event0"; opened = some 9; reported = 2 ∷ []; held = 2 ∷ [] }

open_key_devices-key_devices_example :
    ((open_key_devices (1 ∷ []) (some (device ∷ [])) 4).fds
      ≡ map (λ x. x.0) (key_devices (1 ∷ []) 4 (device ∷ [])))
    × ((open_key_devices (1 ∷ []) (some (device ∷ [])) 4).pressed_key
        ≡ the_key (all_held (key_devices (1 ∷ []) 4 (device ∷ []))))
    × ((open_key_devices (1 ∷ []) none 4).fds ≡ [])
open_key_devices-key_devices_example =
    open_key_devices-key_devices (1 ∷ []) 4 (device ∷ []) (omega arith, tt)

abbrev pub answers : Answers
answers = record {
  maps = true;
  can_fork = true;
  setcon = true;
  child_survives = true;
  waits = true;
  child_stat = done (some_stat 0);
  own_stat = fails 2;
}

abbrev pub unknown : Installer
unknown = record { uid = 0; gid = 0 }

abbrev pub root : Credentials
root = record { user = 0; group = 0 }

abbrev pub kept : List ℤ
kept = pos 6 ∷ pos 36 ∷ negsuc 0 ∷ pos 7 ∷ []

-- The version is found behind a comment, with spaces around it.
prop-version :
    parse_xposed_prop
      (λ s. pos 89)
      (some (bytes_of "# x=1\n version = 89 (a)\n"))
      (record { text = []; number = pos 0 })
    ≡ returned (record { text = bytes_of "89 (a)"; number = pos 89 })
unfolding parse_xposed_prop parse_lines parse_line handle_entry fgets skip_spaces trim_end split_at
    until_newline is_space
prop-version = refl

version-IsKey : IsKey b'v' (bytes_of "ersion")
unfolding is_space
version-IsKey = record {
  no_space = refl;
  no_comment = refl;
  no_sign = refl;
  no_space_behind = refl;
}

number-IsValue : IsValue (bytes_of "89")
unfolding is_space
number-IsValue = record { no_space = refl; one_line = refl }

one-AllSpaces : AllSpaces (bytes_of " ")
unfolding AllSpaces is_space
one-AllSpaces = (refl, tt)

parse_line-written_example :
    parse_line (bytes_of " version = 89\n") ≡ returned (some (bytes_of "version", bytes_of "89"))
parse_line-written_example =
    parse_line-written b'v' (bytes_of "ersion") (bytes_of "89") (bytes_of " ") (bytes_of " ")
      (bytes_of " ") version-IsKey number-IsValue one-AllSpaces one-AllSpaces one-AllSpaces

-- `CAP_SYSLOG`, and the end of the array.
abbrev syslog_only : List ℤ
syslog_only = pos 34 ∷ negsuc 0 ∷ []

syslog_only-IsEnded : IsEnded syslog_only
unfolding IsEnded
syslog_only-IsEnded = (omega arith, tt)

drop_capabilities-is_kept_example :
    (has_capability 34 (drop_capabilities (some syslog_only)).1 ≡ is_kept 34 syslog_only)
    × ((drop_capabilities (some syslog_only)).0.effective
        ≡ (drop_capabilities (some syslog_only)).0.permitted)
    × ((drop_capabilities (some syslog_only)).0.inheritable
        ≡ (drop_capabilities (some syslog_only)).0.permitted)
    × ((drop_capabilities (some syslog_only)).1.effective
        ≡ (drop_capabilities (some syslog_only)).1.permitted)
    × ((drop_capabilities (some syslog_only)).1.inheritable
        ≡ (drop_capabilities (some syslog_only)).1.permitted)
    × (drop_capabilities none ≡ (
      record { permitted = []; effective = []; inheritable = [] },
      record { permitted = []; effective = []; inheritable = [] },
    ))
drop_capabilities-is_kept_example =
    drop_capabilities-is_kept 34 syslog_only syslog_only-IsEnded (omega arith)
