-- ===== src/Tests/Starts.antt =====
-- Runs of the naming of a process, and of starts with the flag files.
use xposed.Prelude.{
  if◌then◌else◌, Bool-cases, bytes_of, eqb_text, Bytes, length, take, any, ℤ, pos, minus_one, eqb_ℤ,
  ◌-◌, ◌^◌, ◌≡◌, refl, inl, inr, true, false, some, List, [], ◌∷◌, ◌++◌, arith, none,
}
use xposed.AppProcess.ArgBlock.{Argument, compute_arg_block_size, set_process_name}
use xposed.AppProcess.Main.{World, launches, app_main}
use xposed.AppProcess.Named.{block_of, IsContiguous, HasNoEnd, named, set_process_name-fits}
use xposed.AppProcess.Printed.{IsOptions, IsClassName}
use xposed.AppProcess.Runtime.{
  Vm, xposed_created, finds_class, starts_thread_pool, calls_main, stops_process,
}
use xposed.AppProcess.Tool.{
  runtime_of, tool_acts, tool_flags, tool_argv, tool_launch, tool_main-runs,
}
use xposed.Logcat.Daemon.{c_text}
use xposed.Run.{returned}
use xposed.Startup.Boot.{load, check_safemode, restrict_forks, start_services, initialize}
use xposed.Startup.FlagFiles.{Files}
use xposed.Startup.Persists.{disables, Attempt, IsFaithful, attempt, attempts, safemode-persists}
use xposed.Startup.FlagFiles

abbrev app_process : Argument
app_process = record { address = 1000; text = bytes_of "/system/bin/app_process" }

abbrev zygote_option : Argument
zygote_option = record { address = 1024; text = bytes_of "--zygote" }

set_process_name-fits_example :
    let block = block_of (app_process ∷ zygote_option ∷ []) in
    let size = length block in
    (compute_arg_block_size (2 ^ 32) (app_process ∷ zygote_option ∷ []) ≡ some size)
    × (set_process_name (bytes_of "zygote") size (block ++ bytes_of "PATH=/sbin")
        ≡ returned (named (bytes_of "zygote") (size - 1) ++ bytes_of "PATH=/sbin"))
    × (length (named (bytes_of "zygote") (size - 1)) ≡ size)
    × (c_text (named (bytes_of "zygote") (size - 1) ++ bytes_of "PATH=/sbin")
        ≡ take (size - 1) (bytes_of "zygote"))
unfolding block_of IsContiguous HasNoEnd
set_process_name-fits_example =
    set_process_name-fits (2 ^ 32) 1000 app_process (zygote_option ∷ []) (bytes_of "zygote")
      (bytes_of "PATH=/sbin") (refl, (refl, tt)) (omega arith) (omega arith)

-- The system finds the files that exist.
abbrev answer : List Bytes → Bytes → ℤ
answer existing path = if any (eqb_text path) existing then pos 0 else minus_one

abbrev files : Files
files = record {
  with_selinux = true;
  platform_sdk_version = 23;
  selinux_enabled = true;
  access_file = answer;
  access = answer;
  open_created = λ path. some 5;
}

answer-found :
    (existing : List Bytes) (path : Bytes)
    → eqb_ℤ (answer existing path) (pos 0) ≡ any (eqb_text path) existing
answer-found existing path = elim (Bool-cases (any (eqb_text path) existing)) [
  | inl h ↦ rw h
  | inr h ↦ rw h
]

files-IsFaithful : IsFaithful files
files-IsFaithful = record { by_service = answer-found; by_system = answer-found }

-- All goes well, and the keys are pressed.
abbrev pressed_keys : Attempt
pressed_keys = record {
  others = record {
    is_minimal = false;
    finds_installer = true;
    starts_all = true;
    starts_membased = true;
    is_triggered = λ skip. true;
    ignores_command = false;
    adds_jar = true;
  };
  zygote = true;
  start_system_server = true;
}

-- The next start, with no keys.
abbrev no_keys : Attempt
no_keys = record pressed_keys {
  others = record pressed_keys.others { is_triggered = λ skip. false };
}

safemode-persists_example :
    any (λ loaded. loaded) (attempts files false (pressed_keys ∷ no_keys ∷ []) []) ≡ false
unfolding initialize disables start_services restrict_forks check_safemode load
    FlagFiles.is_safemode_disabled FlagFiles.zygote_access FlagFiles.xposed_load_blocker
safemode-persists_example =
    safemode-persists files files-IsFaithful false pressed_keys (no_keys ∷ []) [] 5 refl refl

-- Without the keys Xposed is loaded.
no_keys-loads : attempts files false (no_keys ∷ []) [] ≡ true ∷ []
unfolding attempts attempt initialize disables start_services restrict_forks check_safemode load
    FlagFiles.is_disabled FlagFiles.is_safemode_disabled FlagFiles.zygote_access
    FlagFiles.xposed_load_blocker
no_keys-loads = refl

-- A shell command without Xposed's services.
abbrev world : World
world = record {
  no_new_privileges = true;
  zygote_nice_name = bytes_of "zygote";
  abi_list = some (bytes_of "arm");
  creates_cache = true;
  initialize = λ zygote server. true;
  is_null = λ s. false;
}

abbrev vm : Vm
vm = record { to_slash_class_name = λ s. s; find_class = λ s. some 1; new_global_ref = λ c. c }

abbrev am : Bytes
am = bytes_of "com.android.commands.am.Am"

tool_main-runs_example :
    let f = tool_flags true am (bytes_of "start" ∷ []) in
    let l = tool_launch true [] f [] in
    (app_main world (tool_argv (bytes_of "app_process") [] (bytes_of "/system/bin") f none)
      ≡ launches l)
    × (tool_acts vm true (runtime_of l)
        ≡ xposed_created
          ∷ finds_class am
          ∷ starts_thread_pool
          ∷ calls_main (some am) (some 1) (bytes_of "start" ∷ [])
          ∷ stops_process
          ∷ [])
unfolding IsOptions IsClassName
tool_main-runs_example =
    tool_main-runs world [] true am (bytes_of "start" ∷ []) vm (bytes_of "app_process")
      (bytes_of "/system/bin") none tt refl (λ e. cc e) refl refl
