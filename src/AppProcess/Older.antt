-- ===== src/AppProcess/Older.antt =====
-- app_main.cpp, lines 167-273: the main function for Android 4.
use xposed.Prelude.{
  ◌==◌, if◌then◌else◌, bytes_of, eqb_text, starts_with, Bytes, length, drop, ℕ, Bool, true, false,
  ◌||◌, Option, none, some, List, [], ◌∷◌,
}
use xposed.AppProcess.Main.{
  Handled, prints_version, tests_safemode, continues, handle_options, xposed_class_dots_zygote,
  xposed_class_dots_tools,
}

-- What the loop over the arguments sets; the pointers are null before.
pub record OlderFlags : Type 0 where
  pub zygote : Bool
  pub start_system_server : Bool
  pub application : Bool
  pub parent_dir : Option Bytes
  pub nice_name : Option Bytes
  pub class_name : Option Bytes
  pub rest : List Bytes

abbrev pub is_null_pointer : Option Bytes → Bool
is_null_pointer none = true
is_null_pointer (some s) = false

-- Lines 230-247.
unfoldable pub parse_older : List Bytes → OlderFlags → OlderFlags
parse_older [] f = record f { rest = [] }
parse_older (arg ∷ args) f =
    let again = parse_older args (
      if is_null_pointer f.parent_dir
      then record f { parent_dir = some arg }
      else if eqb_text arg (bytes_of "--zygote")
      then record f { zygote = true; nice_name = some (bytes_of "zygote") }
      else if eqb_text arg (bytes_of "--start-system-server")
      then record f { start_system_server = true }
      else if eqb_text arg (bytes_of "--application")
      then record f { application = true }
      else record f { nice_name = some (drop 12 arg) }) in
    if is_null_pointer f.parent_dir
      || eqb_text arg (bytes_of "--zygote")
      || eqb_text arg (bytes_of "--start-system-server")
      || eqb_text arg (bytes_of "--application")
      || starts_with (bytes_of "--nice-name=") arg
    then again
    else record f { class_name = some arg; rest = args }

abbrev pub no_older_flags : OlderFlags
no_older_flags = record {
  zygote = false;
  start_system_server = false;
  application = false;
  parent_dir = none;
  nice_name = none;
  class_name = none;
  rest = [];
}

-- Whether the program is executed again in another memory layout, how many arguments the virtual
-- machine takes, and what `initialize` returns.
pub record OlderWorld : Type 0 where
  pub executes_again : Bool
  pub add_vm_arguments : List Bytes → ℕ
  pub initialize : (zygote start_system_server : Bool) → (class_name : Option Bytes) → Bool

pub record OlderLaunch : Type 0 where
  pub runtime_class : Bytes
  pub options : Bytes
  pub main_class : Option (Bytes × List Bytes)
  pub process_name : Option Bytes

pub data OlderOutcome : Type 0 where
  handles : Handled → OlderOutcome
  executed_again : OlderOutcome
  launches_older : OlderLaunch → OlderOutcome
  no_class : OlderOutcome

-- Lines 249-252: the name that is set, if it is not empty.
unfoldable pub process_name_of : Option Bytes → Option Bytes
process_name_of none = none
process_name_of (some n) = if length n == 0 then none else some n

-- Lines 249-272.
unfoldable pub start_older : OlderWorld → OlderFlags → OlderOutcome
start_older w f =
    let loaded = w.initialize f.zygote f.start_system_server f.class_name in
    if f.zygote
    then launches_older (record {
      runtime_class =
          if loaded
          then xposed_class_dots_zygote
          else bytes_of "com.android.internal.os.ZygoteInit";
      options = if f.start_system_server then bytes_of "start-system-server" else [];
      main_class = none;
      process_name = process_name_of f.nice_name;
    })
    else elim f.class_name [
      | none ↦ no_class
      | some c ↦ launches_older (record {
        runtime_class =
            if loaded
            then xposed_class_dots_tools
            else bytes_of "com.android.internal.os.RuntimeInit";
        options = if f.application then bytes_of "application" else bytes_of "tool";
        main_class = some (c, f.rest);
        process_name = process_name_of f.nice_name;
      })
    ]

unfoldable pub older_main : OlderWorld → (argv : List Bytes) → OlderOutcome
older_main w argv =
    let args = drop 1 argv in
    let run : OlderOutcome =
      if w.executes_again
      then executed_again
      else start_older w (parse_older (drop (w.add_vm_arguments args) args) no_older_flags) in
    elim (handle_options argv) [
      | prints_version ↦ handles prints_version
      | tests_safemode ↦ handles tests_safemode
      | continues ↦ run
    ]
