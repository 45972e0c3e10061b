-- ===== src/Dalvik/Defs.antt =====
-- What the hooks see of the virtual machine: methods and hook records at addresses. Dalvik itself is not
-- in this repository; the fields here are those of its structures that the code reads or writes.
use xposed.Prelude.{◌==◌, if◌then◌else◌, Bytes, ℕ, Bool, true, false, Option}

-- `nativeFunc`: the callback of a hook, or some other function.
pub data NativeFunc : Type 0 where
  hooked_method_callback : NativeFunc
  other_native : ℕ → NativeFunc

-- `insns`: the method's code, or the address of its hook record.
pub data Insns : Type 0 where
  code_at : ℕ → Insns
  hook_info : ℕ → Insns

-- `Method`.
pub record Method : Type 0 where
  pub is_static : Bool
  pub is_native : Bool
  pub native_func : NativeFunc
  pub insns : Insns
  pub registers_size : ℕ
  pub ins_size : ℕ
  pub outs_size : ℕ
  pub shorty : Bytes

-- `XposedHookInfo`: the copy of the method, and two objects.
pub record XposedHookInfo : Type 0 where
  pub original_method : Method
  pub reflected_method : ℕ
  pub additional_info : ℕ

-- The methods, the hook records, and the byte `codeCacheFull` of the compiler, if there is one.
pub record Heap : Type 0 where
  pub methods : ℕ → Method
  pub infos : ℕ → Option XposedHookInfo
  pub code_cache_full : Option ℕ

abbrev pub is_callback : NativeFunc → Bool
is_callback hooked_method_callback = true
is_callback (other_native f) = false

unfoldable pub is_method_hooked : Method → Bool
is_method_hooked m = is_callback m.native_func

-- A function that differs at one place.
abbrev pub update_at {ℓ} : {A : Type ℓ} → (ℕ → A) → ℕ → A → ℕ → A
update_at f a x b = if a == b then x else f b
