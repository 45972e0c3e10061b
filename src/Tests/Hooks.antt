-- ===== src/Tests/Hooks.antt =====
-- Hooks of Dalvik at concrete inputs.
use xposed.Prelude.{bytes_of, ℕ, ◌≡◌, refl, inr, true, false, none, some, List, [], ◌∷◌}
use xposed.Dalvik.Boxing.{Value, word_value, wide_value, object_value, IsDescribed, AllDescribed}
use xposed.Dalvik.Callback.{
  reference, boxed_word, boxed_wide, HandlerCall, Machine, finish_call, hooked_method_callback_call,
}
use xposed.Dalvik.Defs.{other_native, Method, Heap, is_method_hooked, update_at, code_at}
use xposed.Dalvik.Handler.{
  invoke_original-originals, Reached, no_hooks, hooks_method, hooked_method_callback_call-handler,
}
use xposed.Dalvik.Hook.{
  HookRequest, newly_hooked, hooked, reset_jit, install, hook_method_native, copy_in, callee_method,
  invoke_original,
}
use xposed.Dalvik.Refines.{
  Hook, add_hook, untouched, Refines, NoneHooked, hook_method_native-Refines,
}
use xposed.Run.{returned}

abbrev method : Method
method = record {
  is_static = false;
  is_native = false;
  native_func = other_native 0;
  insns = code_at 1000;
  registers_size = 5;
  ins_size = 4;
  outs_size = 2;
  shorty = bytes_of "VIJL";
}

-- Every address has the same method.
abbrev originals : ℕ → Method
originals a = method

abbrev clean_heap : Heap
clean_heap = record { methods = originals; infos = λ i. none; code_cache_full = some 0 }

abbrev hook_request : HookRequest
hook_request = record {
  has_declared_class = true;
  has_method = true;
  slot_method = some 40;
  reflected = 70;
  additional = 80;
}

abbrev some_hook : Hook
some_hook = record { reflected = 70; additional = 80 }

abbrev hooked_heap : Heap
hooked_heap = record {
  methods = update_at originals 40 (hooked 500 method);
  infos =
      update_at (λ i. none) 500
        (some (record { original_method = method; reflected_method = 70; additional_info = 80 }));
  code_cache_full = some 1;
}

originals-NoneHooked : NoneHooked originals
unfolding is_method_hooked
originals-NoneHooked a = refl

clean-Refines : Refines originals (λ a. none) clean_heap
clean-Refines a = untouched refl

hook_method_native-Refines_example :
    (h' : Heap) × (hook_method_native (some 500) hook_request clean_heap
      ≡ returned (newly_hooked, h'))
    × Refines originals (add_hook 40 some_hook (λ a. none)) h'
hook_method_native-Refines_example =
    hook_method_native-Refines originals originals-NoneHooked 500 40 hook_request (λ a. none)
      clean_heap refl refl refl refl clean-Refines

runs : hook_method_native (some 500) hook_request clean_heap ≡ returned (newly_hooked, hooked_heap)
unfolding hook_method_native install reset_jit hooked is_method_hooked
runs = refl

hooked_heap-Reached : Reached originals (add_hook 40 some_hook (λ a. none)) hooked_heap
hooked_heap-Reached =
    hooks_method 500 40 hook_request refl refl refl refl runs (no_hooks (λ i. none) (some 0))

abbrev machine : Machine
machine = record {
  allocates = true;
  boxes = λ n. true;
  handler = λ c. some none;
  returns_void = true;
  returns_primitive = false;
  unboxes = λ o. true;
}

abbrev values : List Value
values = word_value b'I' 3 ∷ wide_value b'J' 4 5 ∷ object_value b'L' 600 ∷ []

values-AllDescribed : AllDescribed values
unfolding AllDescribed IsDescribed
values-AllDescribed = (refl, (inr refl, (inr refl, tt)))

abbrev handler_call : ℕ → HandlerCall
handler_call info = record {
  reflected = 70;
  original = info;
  additional = 80;
  this_object = some 300;
  arguments = boxed_word b'I' 3 ∷ boxed_wide b'J' 4 5 ∷ reference 600 ∷ [];
}

is_there : add_hook 40 some_hook (λ a. none) 40 ≡ some some_hook
unfolding add_hook
is_there = refl

hooked_method_callback_call-handler_example :
    (info : ℕ) × (hooked_method_callback_call machine (300 ∷ 3 ∷ 4 ∷ 5 ∷ 600 ∷ []) 40 hooked_heap
      ≡ returned (finish_call machine (handler_call info) (machine.handler (handler_call info))))
    × (callee_method hooked_heap (copy_in info) ≡ returned method)
hooked_method_callback_call-handler_example =
    hooked_method_callback_call-handler originals-NoneHooked hooked_heap-Reached 40 machine b'V' 300
      values is_there refl refl (λ n. refl) values-AllDescribed

invoke_original-originals_example : invoke_original none 40 hooked_heap ≡ returned (originals 40)
invoke_original-originals_example =
    invoke_original-originals originals-NoneHooked hooked_heap-Reached 40
