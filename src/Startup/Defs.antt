-- ===== src/Startup/Defs.antt =====
-- xposed.cpp, lines 49-142 and 178-383: what the start of the zygote decides. Texts are C strings; what
-- the system answers is a parameter.
use xposed.Prelude.{
  ltb, leb, ◌==◌, if◌then◌else◌, bytes_of, eqb_text, Bytes, length, get_or, drop, ℕ, ◌-◌, Bool,
  true, false, not, ◌&&◌, ◌||◌, Option, none, some, List, [], ◌∷◌, ◌++◌,
}

unfoldable pub is_minimal_framework : (vold_decrypt : Bytes) → Bool
is_minimal_framework vold_decrypt =
    eqb_text vold_decrypt (bytes_of "trigger_restart_min_framework")
    || eqb_text vold_decrypt (bytes_of "1")

-- `strrchr`: the text from the last occurrence of a character on.
unfoldable pub strrchr : Bytes → ℕ → Option Bytes
strrchr [] c = none
strrchr (x ∷ s) c = elim (strrchr s c) [
  | some t ↦ some t
  | none ↦ if x == c then some (x ∷ s) else none
]

-- The arguments that name a result of a superuser application.
unfoldable pub is_result_of_su : Bytes → Bool
is_result_of_su arg =
    eqb_text arg (bytes_of "com.noshufou.android.su.RESULT")
    || eqb_text arg (bytes_of "eu.chainfire.supersu.NativeAccess")

unfoldable pub is_superuser_component : Bytes → Bool
is_superuser_component arg = elim (strrchr arg b'.') [
  | none ↦ false
  | some last_component ↦
      eqb_text last_component (bytes_of ".RequestActivity")
      || eqb_text last_component (bytes_of ".NotifyActivity")
      || eqb_text last_component (bytes_of ".SuReceiver")
]

-- Lines 284-301: the loop over the arguments from the fourth on.
unfoldable pub scan_arguments : (might_be_superuser : Bool) → List Bytes → Bool
scan_arguments might_be_superuser [] = false
scan_arguments might_be_superuser (arg ∷ args) =
    if is_result_of_su arg
    then true
    else if might_be_superuser && eqb_text arg (bytes_of "--user")
    then true
    else scan_arguments (might_be_superuser || is_superuser_component arg) args

unfoldable pub should_ignore_command : (start_class_name : Bytes) → (argv : List Bytes) → Bool
should_ignore_command start_class_name argv =
    if ltb (length argv) 4
      || not (eqb_text start_class_name (bytes_of "com.android.commands.am.Am"))
    then false
    else if not (eqb_text (get_or argv 2 []) (bytes_of "broadcast"))
        && not (eqb_text (get_or argv 2 []) (bytes_of "start"))
    then false
    else scan_arguments false (drop 3 argv)

-- `addPathToEnv`: the variable's new value, if any. `snprintf` returns the length that it needs.
unfoldable pub add_path_to_env : (old_path : Option Bytes) → (path : Bytes) → Option Bytes
add_path_to_env none path = some path
add_path_to_env (some old_path) path =
    let new_path = path ++ (b':' ∷ old_path) in
    if leb 4096 (length new_path) then none else some new_path

-- `addJarToClasspath`: whether it succeeds, and `CLASSPATH` then.
unfoldable pub add_jar_to_classpath :
    (is_readable : Bool) → (xposed_jar : Bytes) → Option Bytes → Bool × Option Bytes
add_jar_to_classpath is_readable xposed_jar classpath =
    if is_readable
    then elim (add_path_to_env classpath xposed_jar) [
      | none ↦ (false, classpath)
      | some value ↦ (true, some value)
    ]
    else (false, classpath)

pub data Runtime : Type 0 where
  dalvik : Runtime
  art : Runtime

-- The runtime that a line of `/proc/self/maps` names.
unfoldable pub runtime_of_line : Bytes → Option Runtime
runtime_of_line line = elim (strrchr line b'/') [
  | none ↦ none
  | some libname ↦
      if eqb_text (bytes_of "libdvm.so\n") (drop 1 libname)
      then some dalvik
      else if eqb_text (bytes_of "libart.so\n") (drop 1 libname)
      then some art
      else none
]

-- Lines 361-379: the loop over the lines that `fgets` reads.
unfoldable pub scan_lines : List Bytes → Option Runtime
scan_lines [] = none
scan_lines (line ∷ lines) = elim (runtime_of_line line) [
  | some r ↦ some r
  | none ↦ scan_lines lines
]

-- `fgets` into an array of `size` bytes: a line with its end, cut to `size - 1` bytes. The rest is
-- read as a line of its own.
unfoldable pub fgets : ℕ → (room : ℕ) → Bytes → List Bytes
fgets size room [] = []
fgets size room (x ∷ s) =
    let next = fgets size (if (x == b'\n') || leb room 1 then size - 1 else room - 1) s in
    if (x == b'\n') || leb room 1
    then (x ∷ []) ∷ next
    else elim next [ [] ↦ (x ∷ []) ∷ [] | line ∷ lines ↦ (x ∷ line) ∷ lines ]

-- `determineRuntime`, given the contents of `/proc/self/maps` if it can be opened.
unfoldable pub determine_runtime : (maps : Option Bytes) → Option Runtime
determine_runtime none = none
determine_runtime (some contents) = scan_lines (fgets 256 255 contents)
