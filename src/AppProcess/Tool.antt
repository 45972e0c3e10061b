-- ===== src/AppProcess/Tool.antt =====
-- A tool, from its command line to the main function in Java.
use xposed.Prelude.{
  not, refl, append_assoc, ◌≢◌, ◌==◌, if◌then◌else◌, bytes_of, Bytes, length, ◌≡◌, Bool, true,
  false, Option, none, some, List, [], ◌∷◌, ◌++◌, length-append, ℕ, suc, ◌+◌, ap, ◌∙◌, arith,
}
use xposed.AppProcess.Args.{Flags, CommandLine, parse_command_line}
use xposed.AppProcess.Main.{
  handled, prints_version, tests_safemode, continues, Handled, handle_options, World, Launch,
  launches, xposed_class_dots_tools, app_main, Outcome, fatal, runtime_args, start_runtime,
}
use xposed.AppProcess.Printed.{flag_args, parse_command_line-flag_args, IsOptions, IsClassName}
use xposed.AppProcess.Runtime.{
  xposed_created, finds_class, describes_exception, starts_thread_pool, calls_main, stops_process,
  app_on_vm_created, Vm, AppRuntime, Act, app_runtime, set_class_name_and_args, on_started,
}

-- What `main` leaves in the object of the runtime.
abbrev pub runtime_of : Launch → AppRuntime Bytes
runtime_of l = elim l.main_class [
  | none ↦ app_runtime
  | some (class_name, args) ↦ set_class_name_and_args class_name args app_runtime
]

-- The life of a tool in the runtime of Android: the virtual machine is created, and then started.
unfoldable pub tool_acts : Vm → (is_xposed_loaded : Bool) → AppRuntime Bytes → List Act
tool_acts vm is_xposed_loaded r =
    let created = app_on_vm_created vm is_xposed_loaded r in created.1 ++ on_started created.0

abbrev pub tool_flags : (application : Bool) (class_name : Bytes) → List Bytes → Flags
tool_flags application class_name args = record {
  zygote = false;
  start_system_server = false;
  application = application;
  nice_name = [];
  class_name = class_name;
  rest = args;
}

-- The command line of a tool.
abbrev pub tool_argv :
    (program : Bytes) (options : List Bytes) (parent_dir : Bytes) (f : Flags)
    → Option Bytes
    → List Bytes
tool_argv program options parent_dir f nice_name =
    program
    ∷ (options ++ (bytes_of "--" ∷ parent_dir ∷ flag_args f nice_name (f.class_name ∷ f.rest)))

abbrev given : Option Bytes → Bytes
given none = []
given (some n) = n

-- With the class and its arguments.
abbrev pub tool_launch :
    (is_xposed_loaded : Bool) (options : List Bytes) (f : Flags) → Bytes → Launch
tool_launch is_xposed_loaded options f nice_name = record {
  runtime_class =
      if is_xposed_loaded
      then xposed_class_dots_tools
      else bytes_of "com.android.internal.os.RuntimeInit";
  args = (if f.application then bytes_of "application" else bytes_of "tool") ∷ [];
  vm_args = options;
  main_class = some (f.class_name, f.rest);
  process_name = if length nice_name == 0 then none else some nice_name;
  is_zygote = false;
}

nonempty_test : (s : Bytes) → s ≢ [] → (length s == 0) ≡ false
nonempty_test [] h = absurd (h refl)
nonempty_test (x ∷ s) h = ground arith

ne-two : (n : ℕ) → (suc (n + 2) == 2) ≡ false
ne-two n = ground arith

many_arguments :
    (program parent_dir : Bytes) (options args : List Bytes)
    → handle_options (program ∷ (options ++ (bytes_of "--" ∷ parent_dir ∷ args)))
      ≡ Handled.continues
unfolding handle_options
many_arguments program parent_dir options args =
    let e : (length (program ∷ (options ++ (bytes_of "--" ∷ parent_dir ∷ args))) == 2) ≡ false =
      ap (λ (n : ℕ). suc n == 2)
        (omega (arith, length-append {0} options (bytes_of "--" ∷ parent_dir ∷ args)))
      ∙ ne-two (length options + length args) in
    rw e

-- What `main` does with a command line that is understood.
abbrev run_of : World → CommandLine → Outcome
run_of w c = elim (runtime_args w c.flags) [ none ↦ fatal | some a ↦ start_runtime w c a ]

goes_on :
    (b : Bool) (h : Handled) (o : Outcome)
    → b ≡ true
    → h ≡ Handled.continues
    → (if not b then fatal else elim h as (λ _. Outcome) [
      | prints_version ↦ handled prints_version
      | tests_safemode ↦ handled tests_safemode
      | continues ↦ o
    ])
      ≡ o
goes_on b h o p q = rw (p, q)

continued :
    (w : World) (program parent_dir : Bytes) (options args : List Bytes)
    → w.no_new_privileges ≡ true
    → app_main w (program ∷ (options ++ (bytes_of "--" ∷ parent_dir ∷ args)))
      ≡ run_of w
          (parse_command_line w.zygote_nice_name (options ++ (bytes_of "--" ∷ parent_dir ∷ args)))
unfolding app_main
continued w program parent_dir options args p =
    goes_on w.no_new_privileges _ _ p (many_arguments program parent_dir options args)

module _ (w : World) (options : List Bytes) (application : Bool) (class_name : Bytes)
    (args : List Bytes) where
  tool_runtime :
      (nice_name : Bytes)
      → (length class_name == 0) ≡ false
      → w.is_null class_name ≡ false
      → let f = record (tool_flags application class_name args) { nice_name = nice_name } in
        elim (runtime_args w f) as (λ _. Outcome) [
          | none ↦ fatal
          | some a ↦ start_runtime w (record { options = options; flags = f }) a
        ]
        ≡ launches (
            tool_launch
              (w.initialize false false)
              options
              (tool_flags application class_name args)
              nice_name)
  unfolding runtime_args start_runtime
  tool_runtime nice_name some_class not_null = rw (some_class, not_null)

  tool_main :
      (program parent_dir : Bytes) (nice_name : Option Bytes)
      → IsOptions options
      → IsClassName class_name
      → (length class_name == 0) ≡ false
      → w.no_new_privileges ≡ true
      → w.is_null class_name ≡ false
      → let f = tool_flags application class_name args in
        app_main w (tool_argv program options parent_dir f nice_name)
        ≡ launches (tool_launch (w.initialize false false) options f (given nice_name))
  tool_main program parent_dir none h g some_class p not_null =
      let f = tool_flags application class_name args in
      continued w program parent_dir options (flag_args f none (class_name ∷ args)) p
      ∙ ap (run_of w)
          (parse_command_line-flag_args w.zygote_nice_name options parent_dir f none h g)
      ∙ tool_runtime [] some_class not_null
  tool_main program parent_dir (some n) h g some_class p not_null =
      let f = tool_flags application class_name args in
      continued w program parent_dir options (flag_args f (some n) (class_name ∷ args)) p
      ∙ ap (run_of w)
          (parse_command_line-flag_args w.zygote_nice_name options parent_dir f (some n) h g)
      ∙ tool_runtime n some_class not_null

  -- A tool is started on the command line, with options for the virtual machine, a parent directory,
  -- perhaps `--application` and a nice name, a class and arguments. Then `main` starts the runtime
  -- with the class of Xposed exactly if Xposed is loaded, under the nice name if it is not empty; and
  -- in the runtime Xposed is started, if it is loaded, before the class is looked for, and the main
  -- function of that class gets the arguments behind the class, and no others.
  pub tool_main-runs :
      (vm : Vm) (program parent_dir : Bytes) (nice_name : Option Bytes)
      → IsOptions options
      → IsClassName class_name
      → class_name ≢ []
      → w.no_new_privileges ≡ true
      → w.is_null class_name ≡ false
      → let loaded = w.initialize false false in
        let f = tool_flags application class_name args in
        let l = tool_launch loaded options f (given nice_name) in
        let found = vm.find_class (vm.to_slash_class_name class_name) in
        (app_main w (tool_argv program options parent_dir f nice_name) ≡ launches l)
        × (tool_acts vm loaded (runtime_of l)
            ≡ (if loaded then xposed_created ∷ [] else [])
              ++ (finds_class (vm.to_slash_class_name class_name)
                  ∷ (elim found as (λ _. List Act) [ none ↦ describes_exception ∷ [] | some c ↦ [] ]
                      ++ (starts_thread_pool
                          ∷ calls_main (some class_name) (vm.new_global_ref found) args
                          ∷ stops_process
                          ∷ []))))
  unfolding tool_acts app_on_vm_created on_started set_class_name_and_args
  tool_main-runs vm program parent_dir nice_name h g some_class p not_null =
      let named : (length class_name == 0) ≡ false = nonempty_test class_name some_class in
      (tool_main program parent_dir nice_name h g named p not_null, rw named (simp append_assoc))
