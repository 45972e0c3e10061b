-- ===== src/Tests/Commands.antt =====
-- The command line of app_process, the copy of the log, and the library in the virtual machine, at
-- concrete inputs.
use xposed.Prelude.{
  bytes_of, Bytes, length, pos, ℕ, ◌+◌, ◌≤◌, ◌<◌, ◌≡◌, refl, ◌≢◌, true, false, Option, none, some,
  List, [], ◌∷◌, map, arith,
}
use xposed.AppProcess.Agreement.{Agrees, parse_older-Agrees}
use xposed.AppProcess.Args.{Flags, parse_command_line, parse_flags, no_flags}
use xposed.AppProcess.Main.{World, usage_error, app_main}
use xposed.AppProcess.Older.{parse_older, no_older_flags}
use xposed.AppProcess.Printed.{IsOptions, flag_args, IsClassName, parse_command_line-flag_args}
use xposed.AppProcess.Unreached.{app_main-ne-usage_error}
use xposed.Bridge.Init.{
  Bridge, Jni, init_xposed_bridge, init_file_result, init_zygote_service, on_vm_created_common,
  had_init_errors, load_library,
}
use xposed.Bridge.Loaded.{IsReady, load_library-IsReady}
use xposed.FileSystem.{fails}
use xposed.Logcat.Confined.{is_careful, unlimited, start_logging-is_careful}
use xposed.Logcat.Copied.{after_marker, entries, copy_lines-entries, run_daemon-length}
use xposed.Logcat.Daemon.{
  xposedlog_max_size, buf_size, c_text, contains, is_marker, is_beginning, full_message,
  broken_pipe, copy_lines, run_daemon,
}
use xposed.Logcat.Start.{LogWorld, start_logging}
use xposed.Resources.Rewrite.{Attribute, start_tag, other_event, XmlTree, rewrite_xml_references}
use xposed.Resources.Translated.{
  occurs, translated_event, translator, IsTranslated, rewrite_xml_references-IsTranslated,
}
use xposed.Run.{returned}
use xposed.Startup.Defs.{strrchr, runtime_of_line, scan_lines, fgets, determine_runtime}

abbrev zygote_flags : Flags
zygote_flags = record {
  zygote = true;
  start_system_server = true;
  application = false;
  nice_name = [];
  class_name = bytes_of "Main";
  rest = bytes_of "x" ∷ [];
}

xmx-IsOptions : IsOptions (bytes_of "-Xmx1" ∷ [])
unfolding IsOptions
xmx-IsOptions = (refl, refl, tt)

main-IsClassName : IsClassName (bytes_of "Main")
unfolding IsClassName
main-IsClassName = refl

parse_command_line-flag_args_example :
    parse_command_line (bytes_of "zygote") (
      map bytes_of
        ("-Xmx1" ∷ "--" ∷ "/system/bin" ∷ "--zygote" ∷ "--start-system-server" ∷ "Main" ∷ "x" ∷ []))
    ≡ record {
      options = bytes_of "-Xmx1" ∷ [];
      flags = record zygote_flags { nice_name = bytes_of "zygote" };
    }
unfolding flag_args
parse_command_line-flag_args_example =
    parse_command_line-flag_args (bytes_of "zygote") (bytes_of "-Xmx1" ∷ [])
      (bytes_of "/system/bin") zygote_flags none xmx-IsOptions main-IsClassName

abbrev android : World
android = record {
  no_new_privileges = true;
  zygote_nice_name = bytes_of "zygote";
  abi_list = some (bytes_of "armeabi");
  creates_cache = true;
  initialize = λ zygote server. true;
  is_null = λ s. false;
}

app_main-ne-usage_error_example : app_main android (bytes_of "app_process" ∷ []) ≢ usage_error
app_main-ne-usage_error_example =
    app_main-ne-usage_error android (bytes_of "app_process" ∷ []) (λ s. refl)

abbrev log_lines : List Bytes
log_lines =
    map bytes_of
      ("old\n" ∷ "D XposedStartupMarker: T1\n" ∷ "first\n" ∷ "--- beginning\n" ∷ "second\n" ∷ [])

small : length (entries (after_marker (bytes_of "T1") log_lines)) ≤ xposedlog_max_size
unfolding entries after_marker is_beginning is_marker contains c_text
small = omega arith

copy_lines-entries_example :
    copy_lines (bytes_of "T1") false 0 log_lines
    ≡ (entries (after_marker (bytes_of "T1") log_lines), broken_pipe)
copy_lines-entries_example = copy_lines-entries (bytes_of "T1") log_lines small

runs : run_daemon true true (bytes_of "T1") (bytes_of "old\n") ≡ some ([], broken_pipe)
unfolding run_daemon copy_lines fgets is_beginning is_marker contains c_text
runs = refl

run_daemon-length_example : length {A = ℕ} [] < xposedlog_max_size + buf_size + length full_message
run_daemon-length_example =
    run_daemon-length true true (bytes_of "T1") (bytes_of "old\n") [] broken_pipe runs

abbrev attributes : List Attribute
attributes =
    record { name_id = pos 0; is_reference = true; value = 2130771968 }
    ∷ record { name_id = pos 1; is_reference = true; value = 16842752 }
    ∷ []

abbrev tree : XmlTree
tree = record {
  events = start_tag attributes ∷ other_event ∷ start_tag attributes ∷ [];
  res_ids = 2130771969 ∷ 16842753 ∷ [];
}

rewrite_xml_references-IsTranslated_example :
    (ids' : List ℕ) × (rewrite_xml_references
        (translator (λ i. []) (λ s. pos 5) (λ v. pos 6))
        (some tree)
      ≡ returned
          (record { events = map (translated_event (λ v. pos 6)) tree.events; res_ids = ids' }))
    × IsTranslated (λ i. []) (λ s. pos 5) (λ v. pos 6) (λ i. occurs i tree.events) tree.res_ids ids'
rewrite_xml_references-IsTranslated_example =
    rewrite_xml_references-IsTranslated (λ i. []) (λ s. pos 5) (λ v. pos 6) tree

abbrev jni : Jni
jni = record {
  find_class = λ name. some 1;
  new_global_ref = λ r. some (r + 100);
  registers_natives = λ c. true;
  get_static_method_id = λ c name. some 2;
  get_constructor = λ c. some 3;
}

abbrev unset : Bridge
unset = record {
  xposed_loaded_successfully = false;
  class_xposed_bridge = none;
  method_handle_hooked_method = none;
  class_file_result = none;
  constructor_file_result = none;
  class_xresources = none;
  method_translate_res_id = none;
  method_translate_attr_id = none;
}

abbrev maps : Option Bytes
maps = some (bytes_of "1-2 r-xp /system/lib/libdvm.so\n")

fine : had_init_errors jni (load_library jni maps true true true (λ b. true) unset) ≡ false
unfolding had_init_errors load_library on_vm_created_common init_xposed_bridge init_zygote_service
    init_file_result determine_runtime scan_lines runtime_of_line fgets strrchr
fine = refl

load_library-IsReady_example : IsReady (load_library jni maps true true true (λ b. true) unset)
load_library-IsReady_example =
    load_library-IsReady jni (λ c. refl) maps true true true (λ b. true) unset refl fine

abbrev program : List Bytes
program = map bytes_of ("--application" ∷ "--nice-name=am" ∷ "Main" ∷ "x" ∷ [])

program-names_class : (parse_flags (bytes_of "zygote") program no_flags).class_name ≢ []
unfolding parse_flags
program-names_class = λ e. cc e

parse_older-Agrees_example :
    Agrees
      (parse_flags (bytes_of "zygote") program no_flags)
      (parse_older (bytes_of "/system/bin" ∷ program) no_older_flags)
parse_older-Agrees_example = parse_older-Agrees (bytes_of "/system/bin") program program-names_class

abbrev log_world : LogWorld
log_world = record {
  forks_daemon = true;
  switches_ids = true;
  has_selinux = true;
  sets_context = true;
  rename_log = fails 2;
  makes_pipe = true;
  forks_logcat = true;
  redirects_stdout = true;
  redirects_stderr = true;
  logs_all = false;
  limits_logcat = true;
  limits_daemon = false;
  execs = true;
}

start_logging-is_careful_example :
    (is_careful true false unlimited (start_logging 2 log_world).0 ≡ true)
    × (is_careful true true unlimited (start_logging 2 log_world).1 ≡ true)
start_logging-is_careful_example = start_logging-is_careful 2 log_world
