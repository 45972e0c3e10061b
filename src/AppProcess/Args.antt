-- ===== src/AppProcess/Args.antt =====
-- app_main2.cpp, lines 247-312: the arguments behind the program's name.
use xposed.Prelude.{
  ◌==◌, if◌then◌else◌, bytes_of, eqb_text, starts_with, Bytes, get_or, drop, Bool, true, false, not,
  ◌&&◌, ◌||◌, List, [], ◌∷◌,
}

-- Lines 274-284: the arguments that go to the virtual machine, and what follows.
unfoldable pub vm_options : List Bytes → List Bytes × List Bytes
vm_options [] = ([], [])
vm_options (arg ∷ args) =
    let (options, rest) = vm_options args in
    if not (get_or arg 0 0 == b'-')
    then ([], arg ∷ args)
    else if (get_or arg 1 0 == b'-') && (get_or arg 2 0 == 0)
    then ([], args)
    else (arg ∷ options, rest)

-- What the loop over the internal arguments sets, and the arguments that it leaves.
pub record Flags : Type 0 where
  pub zygote : Bool
  pub start_system_server : Bool
  pub application : Bool
  pub nice_name : Bytes
  pub class_name : Bytes
  pub rest : List Bytes

-- Lines 286-312. `zygote_nice_name` is `ZYGOTE_NICE_NAME`, which depends on the build.
unfoldable pub parse_flags : (zygote_nice_name : Bytes) → List Bytes → Flags → Flags
parse_flags zygote_nice_name [] f = record f { rest = [] }
parse_flags zygote_nice_name (arg ∷ args) f =
    let again = parse_flags zygote_nice_name args (
      if eqb_text arg (bytes_of "--zygote")
      then record f { zygote = true; nice_name = zygote_nice_name }
      else if eqb_text arg (bytes_of "--start-system-server")
      then record f { start_system_server = true }
      else if eqb_text arg (bytes_of "--application")
      then record f { application = true }
      else record f { nice_name = drop 12 arg }) in
    if eqb_text arg (bytes_of "--zygote")
      || eqb_text arg (bytes_of "--start-system-server")
      || eqb_text arg (bytes_of "--application")
      || starts_with (bytes_of "--nice-name=") arg
    then again
    else if not (starts_with (bytes_of "--") arg)
    then record f { class_name = arg; rest = args }
    else record f { rest = arg ∷ args }

abbrev pub no_flags : Flags
no_flags = record {
  zygote = false;
  start_system_server = false;
  application = false;
  nice_name = [];
  class_name = [];
  rest = [];
}

-- The options of the virtual machine, and the flags behind the parent directory, which is skipped.
pub record CommandLine : Type 0 where
  pub options : List Bytes
  pub flags : Flags

unfoldable pub parse_command_line : (zygote_nice_name : Bytes) → List Bytes → CommandLine
parse_command_line zygote_nice_name argv =
    let (options, rest) = vm_options argv in
    record { options = options; flags = parse_flags zygote_nice_name (drop 1 rest) no_flags }
