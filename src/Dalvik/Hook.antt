-- ===== src/Dalvik/Hook.antt =====
-- `XposedBridge_hookMethodNative` and `XposedBridge_invokeOriginalMethodNative`.
use xposed.Prelude.{◌==◌, if◌then◌else◌, ℕ, Bool, true, not, ◌||◌, Option, none, some}
use xposed.Dalvik.Defs.{
  hooked_method_callback, Insns, code_at, hook_info, Method, Heap, is_method_hooked, update_at,
}
use xposed.Run.{◌>>=◌, Run, fault, returned, non_null}

-- What a caller of the hook function passes: the references, which may be null, and what the virtual
-- machine finds for them.
pub record HookRequest : Type 0 where
  pub has_declared_class : Bool
  pub has_method : Bool
  pub slot_method : Option ℕ
  pub reflected : ℕ
  pub additional : ℕ

-- How the function ends.
pub data HookResult : Type 0 where
  illegal_argument : HookResult
  no_such_method : HookResult
  already_hooked : HookResult
  newly_hooked : HookResult

-- Lines 265-270: the method as a hook leaves it.
unfoldable pub hooked : ℕ → Method → Method
hooked info m = record m {
  is_native = true;
  native_func = hooked_method_callback;
  insns = hook_info info;
  registers_size = m.ins_size;
  outs_size = 0;
}

-- Lines 272-280.
unfoldable pub reset_jit : Option ℕ → Option ℕ
reset_jit none = none
reset_jit (some value) = if (value == 0) || (value == 1) then some 1 else some value

-- Lines 259-280, with what `calloc` returns. Its result is not looked at.
unfoldable pub install : (calloc : Option ℕ) → HookRequest → ℕ → Heap → Run Heap
install calloc r a h = do
  info ← non_null calloc
  returned (record {
    methods = update_at h.methods a (hooked info (h.methods a));
    infos = update_at h.infos info (
        some (record {
          original_method = h.methods a;
          reflected_method = r.reflected;
          additional_info = r.additional;
        }));
    code_cache_full = reset_jit h.code_cache_full;
  })

unfoldable pub hook_method_native :
    (calloc : Option ℕ) → HookRequest → Heap → Run (HookResult × Heap)
hook_method_native calloc r h =
    if not r.has_declared_class || not r.has_method
    then returned (illegal_argument, h)
    else elim r.slot_method [
      | none ↦ returned (no_such_method, h)
      | some a ↦
          if is_method_hooked (h.methods a)
          then returned (already_hooked, h)
          else (do h' ← install calloc r a h; returned (newly_hooked, h'))
    ]

-- The method that is called: one of the virtual machine's, or the copy in a hook record.
pub data Callee : Type 0 where
  method_at : ℕ → Callee
  copy_in : ℕ → Callee

-- `(Method*) meth->insns`: the hook record begins with the copy. A method that is not hooked has none.
unfoldable pub copy_of : Insns → Run Callee
copy_of (hook_info info) = returned (copy_in info)
copy_of (code_at c) = fault

-- Lines 290-296: the method that is called. `given` is the second argument, `reflect` the method of
-- the reflection object, which is the first.
unfoldable pub original_callee : (given : Option Callee) → (reflect : ℕ) → Heap → Run Callee
original_callee (some c) reflect h = returned c
original_callee none reflect h =
    if is_method_hooked (h.methods reflect)
    then copy_of (h.methods reflect).insns
    else returned (method_at reflect)

-- The structure that is found there.
unfoldable pub callee_method : Heap → Callee → Run Method
callee_method h (method_at a) = returned (h.methods a)
callee_method h (copy_in info) = do i ← non_null (h.infos info); returned i.original_method

-- The method structure that `invokeOriginalMethodNative` calls.
unfoldable pub invoke_original : (given : Option Callee) → (reflect : ℕ) → Heap → Run Method
invoke_original given reflect h = do c ← original_callee given reflect h; callee_method h c
