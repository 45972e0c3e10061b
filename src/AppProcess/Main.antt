-- ===== src/AppProcess/Main.antt =====
-- app_main2.cpp, lines 230-366, with `handleOptions` of xposed.cpp.
use xposed.Prelude.{
  ◌==◌, if◌then◌else◌, bytes_of, eqb_text, Bytes, length, get_or, drop, Bool, true, false, not,
  ◌&&◌, Option, none, some, List, [], ◌∷◌, ◌++◌,
}
use xposed.AppProcess.Args.{Flags, CommandLine, parse_command_line}

-- What `handleOptions` does: lines 49-76 of xposed.cpp.
pub data Handled : Type 0 where
  prints_version : Handled
  tests_safemode : Handled
  continues : Handled

unfoldable pub handle_options : (argv : List Bytes) → Handled
handle_options argv =
    if (length argv == 2) && eqb_text (get_or argv 1 []) (bytes_of "--xposedversion")
    then prints_version
    else if (length argv == 2) && eqb_text (get_or argv 1 []) (bytes_of "--xposedtestsafemode")
    then tests_safemode
    else Handled.continues

-- What the system answers: whether new privileges could be ruled out (or the kernel does not know how),
-- the name of a zygote's process, the list of the machine's instruction sets, whether the cache of
-- the virtual machine could be set up, what `initialize` returns, and whether the conversion of a
-- text to a pointer gives null.
pub record World : Type 0 where
  pub no_new_privileges : Bool
  pub zygote_nice_name : Bytes
  pub abi_list : Option Bytes
  pub creates_cache : Bool
  pub initialize : (zygote start_system_server : Bool) → Bool
  pub is_null : Bytes → Bool

-- The class with which the runtime is started, and all that it gets.
pub record Launch : Type 0 where
  pub runtime_class : Bytes
  pub args : List Bytes
  pub vm_args : List Bytes
  pub main_class : Option (Bytes × List Bytes)
  pub process_name : Option Bytes
  pub is_zygote : Bool

pub data Outcome : Type 0 where
  fatal : Outcome
  handled : Handled → Outcome
  launches : Launch → Outcome
  usage_error : Outcome

abbrev pub xposed_class_dots_zygote : Bytes
xposed_class_dots_zygote = bytes_of "de.robv.android.xposed.XposedBridge"

abbrev pub xposed_class_dots_tools : Bytes
xposed_class_dots_tools = bytes_of "de.robv.android.xposed.XposedBridge$ToolEntryPoint"

-- Lines 314-347: the arguments of the runtime, and the class that it is to run with its own.
unfoldable pub runtime_args : World → Flags → Option (List Bytes × Option (Bytes × List Bytes))
runtime_args w f =
    if not (length f.class_name == 0)
    then some (
      (if f.application then bytes_of "application" else bytes_of "tool") ∷ [],
      some (f.class_name, f.rest),
    )
    else if not w.creates_cache
    then none
    else elim w.abi_list [
      | none ↦ none
      | some abis ↦ some (
        (if f.start_system_server then bytes_of "start-system-server" ∷ [] else [])
            ++ ((bytes_of "--abi-list=" ++ abis) ∷ f.rest),
        none,
      )
    ]

-- Lines 349-365.
unfoldable pub start_runtime :
    World → CommandLine → List Bytes × Option (Bytes × List Bytes) → Outcome
start_runtime w c (args, main_class) =
    let f = c.flags in
    let started : Bytes → Outcome = λ runtime_class. launches (record {
      runtime_class = runtime_class;
      args = args;
      vm_args = c.options;
      main_class = main_class;
      process_name = if length f.nice_name == 0 then none else some f.nice_name;
      is_zygote = f.zygote;
    }) in
    if f.zygote
    then started (
        if w.initialize true f.start_system_server
        then xposed_class_dots_zygote
        else bytes_of "com.android.internal.os.ZygoteInit")
    else if not (w.is_null f.class_name)
    then started (
        if w.initialize false false
        then xposed_class_dots_tools
        else bytes_of "com.android.internal.os.RuntimeInit")
    else usage_error

unfoldable pub app_main : World → (argv : List Bytes) → Outcome
app_main w argv =
    let c = parse_command_line w.zygote_nice_name (drop 1 argv) in
    let run : Outcome = elim (runtime_args w c.flags) [
      | none ↦ fatal
      | some a ↦ start_runtime w c a
    ] in
    if not w.no_new_privileges then fatal else elim (handle_options argv) [
      | prints_version ↦ handled prints_version
      | tests_safemode ↦ handled tests_safemode
      | continues ↦ run
    ]
