-- ===== src/AppProcess/Unreached.antt =====
-- The test for a class name.
use xposed.Prelude.{Bool-cases, Bytes, drop, ◌≡◌, ◌≢◌, inl, inr, false, Option, List, none, some}
use xposed.AppProcess.Args.{CommandLine, parse_command_line}
use xposed.AppProcess.Main.{
  World, usage_error, app_main, Handled, prints_version, tests_safemode, handle_options, Outcome,
  fatal, handled, runtime_args, start_runtime, continues,
}

start_runtime-ne-usage_error :
    (w : World) (c : CommandLine) (a : List Bytes × Option (Bytes × List Bytes))
    → w.is_null c.flags.class_name ≡ false
    → start_runtime w c a ≢ usage_error
unfolding start_runtime
start_runtime-ne-usage_error w c a h = elim (Bool-cases c.flags.zygote) [
  | inl z ↦ rw (start_runtime, z) (λ e. cc e)
  | inr z ↦ rw (start_runtime, z, h) (λ e. cc e)
]

chosen-ne-usage_error :
    (h : Handled) (o : Outcome)
    → o ≢ usage_error
    → elim h [
      | prints_version ↦ handled prints_version
      | tests_safemode ↦ handled tests_safemode
      | continues ↦ o
    ]
      ≢ usage_error
chosen-ne-usage_error prints_version o h = λ e. cc e
chosen-ne-usage_error tests_safemode o h = λ e. cc e
chosen-ne-usage_error Handled.continues o h = h

started-ne-usage_error :
    (w : World) (c : CommandLine) (a : Option (List Bytes × Option (Bytes × List Bytes)))
    → w.is_null c.flags.class_name ≡ false
    → elim a [ none ↦ fatal | some x ↦ start_runtime w c x ] ≢ usage_error
started-ne-usage_error w c none h = λ e. cc e
started-ne-usage_error w c (some x) h = start_runtime-ne-usage_error w c x h

-- `else if (className)` tests the pointer that a `String8` converts to, not whether the text is empty.
-- Since that is never null, no command line leads to the error for a missing class name, also one
-- with neither a class nor `--zygote`.
pub app_main-ne-usage_error :
    (w : World) (argv : List Bytes)
    → ((s : Bytes) → w.is_null s ≡ false)
    → app_main w argv ≢ usage_error
unfolding app_main
app_main-ne-usage_error w argv never_null =
    let c = parse_command_line w.zygote_nice_name (drop 1 argv) in
    elim (Bool-cases w.no_new_privileges) [
      | inr p ↦ rw (app_main, p) (λ e. cc e)
      | inl p ↦
          rw (app_main, p)
            (chosen-ne-usage_error (handle_options argv) _
              (started-ne-usage_error w c (runtime_args w c.flags) (never_null c.flags.class_name)))
    ]
