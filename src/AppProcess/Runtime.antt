-- ===== src/AppProcess/Runtime.antt =====
-- The class `AppRuntime`: app_main2.cpp lines 41-128, and app_main.cpp lines 40-153; `runtimeStart` of
-- app_main2.cpp, lines 202-228. The runtime of Android, which calls them, is not in this repository.
use xposed.Prelude.{
  ltb, leb, ◌==◌, if◌then◌else◌, Bytes, length, ℤ, pos, negsuc, ℕ, Bool, not, Option, none, some,
  List, [], ◌∷◌, ◌++◌,
}

-- What the virtual machine answers: how a class name is written with slashes, the class for such a
-- name, and a global reference to a class or to null.
pub record Vm : Type 0 where
  pub to_slash_class_name : Bytes → Bytes
  pub find_class : Bytes → Option ℕ
  pub new_global_ref : Option ℕ → Option ℕ

-- `mClassName`, `mArgs` and `mClass`; the name is empty, or for Android 4 null, in a zygote.
pub record AppRuntime (Name : Type 0) : Type 0 where
  pub class_name : Name
  pub args : List Bytes
  pub class : Option ℕ

-- What the runtime does, in order.
pub data Act : Type 0 where
  xposed_created : Act
  finds_class : Bytes → Act
  describes_exception : Act
  enables_tracing : Act
  starts_thread_pool : Act
  calls_main : Option Bytes → Option ℕ → List Bytes → Act
  stops_process : Act
  exits : ℕ → Act

abbrev pub app_runtime : AppRuntime Bytes
app_runtime = record { class_name = []; args = []; class = none }

unfoldable pub set_class_name_and_args : Bytes → List Bytes → AppRuntime Bytes → AppRuntime Bytes
set_class_name_and_args class_name argv r = record {
  class_name = class_name;
  args = r.args ++ argv;
  class = r.class;
}

-- Lines 59-60 of app_main2.cpp, and 85-86 of app_main.cpp.
abbrev pub xposed_part : (is_xposed_loaded : Bool) → List Act
xposed_part is_xposed_loaded = if is_xposed_loaded then xposed_created ∷ [] else []

module _ (vm : Vm) where
  -- `onVmCreated`.
  unfoldable pub app_on_vm_created :
      (is_xposed_loaded : Bool) → AppRuntime Bytes → AppRuntime Bytes × List Act
  app_on_vm_created is_xposed_loaded r =
      let found = vm.find_class (vm.to_slash_class_name r.class_name) in
      if length r.class_name == 0 then (r, xposed_part is_xposed_loaded) else (
        record r { class = vm.new_global_ref found },
        xposed_part is_xposed_loaded
            ++ (finds_class (vm.to_slash_class_name r.class_name)
                ∷ elim found [ none ↦ describes_exception ∷ [] | some c ↦ [] ]),
      )

  -- `onVmCreated` of Android 4, where the exception is not described.
  unfoldable pub older_on_vm_created :
      (is_xposed_loaded : Bool) → AppRuntime (Option Bytes) → AppRuntime (Option Bytes) × List Act
  older_on_vm_created is_xposed_loaded r = elim r.class_name [
    | none ↦ (r, xposed_part is_xposed_loaded)
    | some class_name ↦ (
      record r { class = vm.new_global_ref (vm.find_class (vm.to_slash_class_name class_name)) },
      xposed_part is_xposed_loaded ++ finds_class (vm.to_slash_class_name class_name) ∷ [],
    )
  ]

-- `onStarted`.
unfoldable pub on_started : AppRuntime Bytes → List Act
on_started r =
    starts_thread_pool ∷ calls_main (some r.class_name) r.class r.args ∷ stops_process ∷ []

-- The same for Android 4.
unfoldable pub older_on_started : AppRuntime (Option Bytes) → List Act
older_on_started r =
    starts_thread_pool ∷ calls_main r.class_name r.class r.args ∷ stops_process ∷ []

-- `onZygoteInit`.
unfoldable pub on_zygote_init : (platform_sdk_version : ℕ) → List Act
on_zygote_init platform_sdk_version =
    (if leb platform_sdk_version 22 then enables_tracing ∷ [] else []) ++ starts_thread_pool ∷ []

-- `_atrace_set_tracing_enabled`: `found` says that the function is there.
unfoldable pub atrace_set_tracing_enabled : (sdk_version : ℤ) (found : Bool) → List Act
atrace_set_tracing_enabled (negsuc n) found = []
atrace_set_tracing_enabled (pos n) found =
    if ltb n 18 then [] else if not found then [] else enables_tracing ∷ []

-- `onZygoteInit` of Android 4.
unfoldable pub older_on_zygote_init : (sdk_version : ℤ) (found : Bool) → List Act
unfolding atrace_set_tracing_enabled
older_on_zygote_init sdk_version found =
    atrace_set_tracing_enabled sdk_version found ++ starts_thread_pool ∷ []

-- `onExit`.
unfoldable pub on_exit : (code : ℕ) → AppRuntime Bytes → List Act
on_exit code r = (if length r.class_name == 0 then stops_process ∷ [] else []) ++ exits code ∷ []

-- The same for Android 4.
unfoldable pub older_on_exit : (code : ℕ) → AppRuntime (Option Bytes) → List Act
older_on_exit code r =
    (elim r.class_name [ none ↦ stops_process ∷ [] | some c ↦ [] ]) ++ exits code ∷ []

-- How `AndroidRuntime::start` is called: the newer variant is told whether this is a zygote.
pub data StartCall : Type 0 where
  newer : (runtime_class : Bytes) (options : List Bytes) (zygote : Bool) → StartCall
  older : (runtime_class : Bytes) (options : List Bytes) → StartCall

-- `runtimeStart`, for a system in which these variants are found; `none` ends the program.
unfoldable pub runtime_start :
    (platform_sdk_version : ℕ) (has_newer has_older : Bool)
    → Bytes
    → List Bytes
    → Bool
    → Option StartCall
runtime_start platform_sdk_version has_newer has_older runtime_class options zygote =
    if leb 23 platform_sdk_version
    then some (newer runtime_class options zygote)
    else if has_newer
    then some (newer runtime_class options zygote)
    else if has_older
    then some (older runtime_class options)
    else none

-- `getSdkVersion` of xposed.cpp, lines 233-240: the version that is remembered, and the property
-- "ro.build.version.sdk" as a number.
unfoldable pub get_sdk_version : (sdk_version : ℤ) (property : ℤ) → ℤ
get_sdk_version (pos n) property = pos n
get_sdk_version (negsuc n) property = property
