-- ===== src/Bridge/Init.antt =====
-- The set-up of the library: lines 68-143 and 150-201 of libxposed_common.cpp, and `onVmCreated` of
-- xposed.cpp, lines 386-421.
use xposed.Prelude.{
  if◌then◌else◌, bytes_of, Bytes, ℕ, Bool, true, false, not, ◌&&◌, Option, none, some,
}
use xposed.Startup.Defs.{determine_runtime}

-- The variables of the library; each reference may be null.
pub record Bridge : Type 0 where
  pub xposed_loaded_successfully : Bool
  pub class_xposed_bridge : Option ℕ
  pub method_handle_hooked_method : Option ℕ
  pub class_file_result : Option ℕ
  pub constructor_file_result : Option ℕ
  pub class_xresources : Option ℕ
  pub method_translate_res_id : Option ℕ
  pub method_translate_attr_id : Option ℕ

-- What the virtual machine answers through JNI: `new_global_ref` gives null if there is no memory, and
-- the code passes on what it gets.
pub record Jni : Type 0 where
  pub find_class : Bytes → Option ℕ
  pub new_global_ref : ℕ → Option ℕ
  pub registers_natives : Option ℕ → Bool
  pub get_static_method_id : Option ℕ → Bytes → Option ℕ
  pub get_constructor : Option ℕ → Option ℕ

abbrev pub class_xposed_bridge_name : Bytes
class_xposed_bridge_name = bytes_of "de/robv/android/xposed/XposedBridge"

abbrev pub class_zygote_service_name : Bytes
class_zygote_service_name = bytes_of "de/robv/android/xposed/services/ZygoteService"

abbrev pub class_file_result_name : Bytes
class_file_result_name = bytes_of "de/robv/android/xposed/services/FileResult"

abbrev pub class_xresources_name : Bytes
class_xresources_name = bytes_of "android/content/res/XResources"

-- Is the reference not null?
abbrev pub is_set : Option ℕ → Bool
is_set none = false
is_set (some r) = true

module _ (jni : Jni) where
  unfoldable pub init_xposed_bridge : Bridge → Bool × Bridge
  init_xposed_bridge b = elim (jni.find_class class_xposed_bridge_name) [
    | none ↦ (false, record b { class_xposed_bridge = none })
    | some c ↦
        let b' : Bridge = record b { class_xposed_bridge = jni.new_global_ref c } in
        let handler =
          jni.get_static_method_id (jni.new_global_ref c) (bytes_of "handleHookedMethod") in
        if not (jni.registers_natives (jni.new_global_ref c))
        then (false, b')
        else (is_set handler, record b' { method_handle_hooked_method = handler })
  ]

  unfoldable pub init_file_result : Bridge → Bool × Bridge
  init_file_result b = elim (jni.find_class class_file_result_name) [
    | none ↦ (false, record b { class_file_result = none })
    | some c ↦
        let constructor = jni.get_constructor (jni.new_global_ref c) in
        (
          is_set constructor,
          record b {
            class_file_result = jni.new_global_ref c;
            constructor_file_result = constructor;
          },
        )
  ]

  unfoldable pub init_zygote_service : Bridge → Bool × Bridge
  init_zygote_service b = elim (jni.find_class class_zygote_service_name) [
    | none ↦ (false, b)
    | some c ↦ if not (jni.registers_natives (some c)) then (false, b) else init_file_result b
  ]

  -- `on_vm_created` is the runtime's own part.
  unfoldable pub on_vm_created_common : (on_vm_created : Bridge → Bool) → Bridge → Bridge
  on_vm_created_common on_vm_created b =
      let (has_bridge, b₁) = init_xposed_bridge b in
      let (has_service, b₂) = init_zygote_service b₁ in
      if not has_bridge
      then b₁
      else if not has_service
      then b₂
      else if not (on_vm_created b₂)
      then b₂
      else record b₂ { xposed_loaded_successfully = true }

  unfoldable pub had_init_errors : Bridge → Bool
  had_init_errors b = not b.xposed_loaded_successfully

  unfoldable pub init_xresources_native : Bridge → Bool × Bridge
  init_xresources_native b = elim (jni.find_class class_xresources_name) [
    | none ↦ (false, record b { class_xresources = none })
    | some c ↦
        let r = jni.new_global_ref c in
        let res_id = jni.get_static_method_id r (bytes_of "translateResId") in
        let attr_id = jni.get_static_method_id r (bytes_of "translateAttrId") in
        let b' : Bridge = record b { class_xresources = r } in
        if not (jni.registers_natives r)
        then (false, b')
        else if not (is_set res_id)
        then (false, record b' { method_translate_res_id = res_id })
        else (
          is_set attr_id,
          record b' { method_translate_res_id = res_id; method_translate_attr_id = attr_id },
        )
  ]

  -- `onVmCreated` of xposed.cpp, given the memory map of the process, whether `dlopen` and `dlsym`
  -- succeed, and what `xposedInitLib` of the loaded library returns.
  unfoldable pub load_library :
      (maps : Option Bytes) (opens finds initializes : Bool) (on_vm_created : Bridge → Bool)
      → Bridge
      → Bridge
  load_library maps opens finds initializes on_vm_created b = elim (determine_runtime maps) [
    | none ↦ b
    | some runtime ↦
        if opens && finds && initializes then on_vm_created_common on_vm_created b else b
  ]
