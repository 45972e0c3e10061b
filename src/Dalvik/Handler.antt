-- ===== src/Dalvik/Handler.antt =====
-- What the calls of a hooked method see, after any sequence of hooks.
use xposed.Prelude.{
  if◌then◌else◌, Bool-cases, ℕ, ◌≡◌, refl, sym, ap, subst, ◌∙◌, inl, inr, true, false, Option, none,
  some, List, [], ◌∷◌, map, arith,
}
use xposed.Dalvik.Boxing.{
  Value, AllDescribed, char_of, object_of, all_words, box_arguments-object_of,
}
use xposed.Dalvik.Callback.{
  HandlerCall, Machine, finish_call, this_argument, call_handler, info_of,
  hooked_method_callback_call,
}
use xposed.Dalvik.Defs.{Method, XposedHookInfo, Heap, is_method_hooked, Insns, hook_info}
use xposed.Dalvik.Hook.{
  HookRequest, HookResult, hooked, hook_method_native, copy_of, original_callee, callee_method,
  invoke_original, copy_in,
}
use xposed.Dalvik.Refines.{
  Hook, Hooks, add_hook, IsHooked, untouched, Refines, NoneHooked, IsFree,
  hook_method_native-Refines, swapped, hook_of,
}
use xposed.Run.{Run, out_of_fuel, fault, returned}

-- The machines that hooks lead to, from one in which no method is hooked, and the hooks by then. A request
-- that names no method is refused and changes nothing.
pub data Reached (originals : ℕ → Method) : Hooks → Heap → Type 0 where
  no_hooks :
      (infos : ℕ → Option XposedHookInfo) (jit : Option ℕ)
      → Reached originals
          (λ a. none)
          (record { methods = originals; infos = infos; code_cache_full = jit })
  hooks_method :
      {hooks : Hooks} {h h' : Heap} {res : HookResult} (info a : ℕ) (r : HookRequest)
      → r.has_declared_class ≡ true
      → r.has_method ≡ true
      → r.slot_method ≡ some a
      → IsFree h info
      → hook_method_native (some info) r h ≡ returned (res, h')
      → Reached originals hooks h
      → Reached originals (add_hook a (hook_of r) hooks) h'

returned-injective : {A : Type 0} {a b : A} → returned a ≡ returned b → a ≡ b
returned-injective {A} {a} {b} e = ap value e
  where
    value : Run A → A
    value (returned x) = x
    value fault = a
    value out_of_fuel = a

Reached-Refines :
    {originals : ℕ → Method} {hooks : Hooks} {h : Heap}
    → NoneHooked originals
    → Reached originals hooks h
    → Refines originals hooks h
Reached-Refines none_hooked (no_hooks infos jit) = λ a. untouched refl
Reached-Refines {originals} none_hooked
      (hooks_method {hooks} {h} {h'} info a r c m slot free run reach) =
    let (after, done_so, refines) =
      hook_method_native-Refines originals none_hooked info a r hooks h c m slot free
        (Reached-Refines none_hooked reach) in
    subst (λ x. Refines originals (add_hook a (hook_of r) hooks) x)
      (ap (λ (p : HookResult × Heap). p.1) (returned-injective (sym done_so ∙ run))) refines

-- The method that a state gives for an address is the original, hooked or not.
original-IsHooked :
    {originals : ℕ → Method} {h : Heap} (a : ℕ) {o : Option Hook}
    → is_method_hooked (originals a) ≡ false
    → IsHooked originals h a o
    → invoke_original none a h ≡ returned (originals a)
unfolding invoke_original original_callee copy_of callee_method is_method_hooked hooked
original-IsHooked a none_hooked (untouched same) = ground arith
original-IsHooked a none_hooked (swapped info same there) = rw (same, there)

-- From a machine in which no method is hooked and after any sequence of hooks, also of the same methods
-- again, `invokeOriginalMethodNative`, given the reflection object of a method and no method
-- itself, calls the method as it was before the first hook.
pub invoke_original-originals :
    {originals : ℕ → Method} {hooks : Hooks} {h : Heap}
    → NoneHooked originals
    → Reached originals hooks h
    → (a : ℕ) → invoke_original none a h ≡ returned (originals a)
invoke_original-originals none_hooked reach a =
    original-IsHooked a (none_hooked a) (Reached-Refines none_hooked reach a)

-- The words of a call: those of `this` for a method that is not static, then those of the arguments.
abbrev pub call_words : Method → (this_address : ℕ) → List Value → List ℕ
call_words m this_address vs = if m.is_static then all_words vs else this_address ∷ all_words vs

abbrev pub call_this : Method → (this_address : ℕ) → Option ℕ
call_this m this_address = if m.is_static then none else some this_address

call_handler-arguments :
    (v : Machine) (m : Method) (info ret this_address : ℕ) (i : XposedHookInfo) (vs : List Value)
    → m.shorty ≡ ret ∷ map char_of vs
    → v.allocates ≡ true
    → ((n : ℕ) → v.boxes n ≡ true)
    → AllDescribed vs
    → let c : HandlerCall = record {
      reflected = i.reflected_method;
      original = info;
      additional = i.additional_info;
      this_object = call_this i.original_method this_address;
      arguments = map object_of vs;
    } in
      call_handler v (call_words i.original_method this_address vs) m info i
      ≡ returned (finish_call v c (v.handler c))
unfolding call_handler this_argument
call_handler-arguments v m info ret this_address i vs shorty memory boxed described =
    elim (Bool-cases i.original_method.is_static) [
      | inl static ↦
          rw (static, memory, shorty, box_arguments-object_of v.boxes boxed vs [] described)
      | inr dynamic ↦ rw (
        dynamic,
        memory,
        shorty,
        box_arguments-object_of v.boxes boxed vs (this_address ∷ []) described,
      )
    ]

info_of-hook_info :
    (h : Heap) (info : ℕ) (ins : Insns) (i : XposedHookInfo)
    → ins ≡ hook_info info
    → h.infos info ≡ some i
    → info_of h ins ≡ returned (info, i)
unfolding info_of
info_of-hook_info h info ins i e there = rw (e, there)

callee_method-copy :
    (h : Heap) (info : ℕ) (i : XposedHookInfo)
    → h.infos info ≡ some i
    → callee_method h (copy_in info) ≡ returned i.original_method
unfolding callee_method
callee_method-copy h info i there = rw there

callback-call_handler :
    (h : Heap) (a : ℕ) (v : Machine) (args : List ℕ) (info : ℕ) (i : XposedHookInfo)
    → is_method_hooked (h.methods a) ≡ true
    → info_of h (h.methods a).insns ≡ returned (info, i)
    → hooked_method_callback_call v args a h ≡ call_handler v args (h.methods a) info i
unfolding hooked_method_callback_call
callback-call_handler h a v args info i is_hooked found = rw (is_hooked, found)

callback-IsHooked :
    {originals : ℕ → Method} {h : Heap} (a : ℕ) {k : Hook} (v : Machine) (ret this_address : ℕ)
    (vs : List Value)
    → IsHooked originals h a (some k)
    → (originals a).shorty ≡ ret ∷ map char_of vs
    → v.allocates ≡ true
    → ((n : ℕ) → v.boxes n ≡ true)
    → AllDescribed vs
    → (info : ℕ) × (hooked_method_callback_call v (call_words (originals a) this_address vs) a h
        ≡ returned (
            let c : HandlerCall = record {
              reflected = k.reflected;
              original = info;
              additional = k.additional;
              this_object = call_this (originals a) this_address;
              arguments = map object_of vs;
            } in
            finish_call v c (v.handler c)))
      × (callee_method h (copy_in info) ≡ returned (originals a))
unfolding hooked is_method_hooked
callback-IsHooked {originals} {h} a {k} v ret this_address vs (swapped info same there) shorty
      memory boxed described =
    let i : XposedHookInfo = record {
      original_method = originals a;
      reflected_method = k.reflected;
      additional_info = k.additional;
    } in
    let shorty' : (h.methods a).shorty ≡ ret ∷ map char_of vs =
      ap (λ (m : Method). m.shorty) same ∙ shorty in
    let called =
      call_handler-arguments v (h.methods a) info ret this_address i vs shorty' memory boxed
        described in
    let found =
      info_of-hook_info h info (h.methods a).insns i (ap (λ (m : Method). m.insns) same) there in
    (
      info,
      callback-call_handler h a v _ info i (ap is_method_hooked same) found ∙ called,
      callee_method-copy h info i there,
    )

-- After any sequence of hooks, from a machine in which no method is hooked, a call of a hooked
-- method with arguments that its description fits runs the Java handler, if there is memory for
-- the array and the objects of the arguments: with the objects of the method's first hook, with `this` for a method that is not
-- static, and with exactly the arguments that were passed; the method that it hands to the handler
-- is the original.
pub hooked_method_callback_call-handler :
    {originals : ℕ → Method} {hooks : Hooks} {h : Heap} {k : Hook}
    → NoneHooked originals
    → Reached originals hooks h
    → (a : ℕ) (v : Machine) (ret this_address : ℕ) (vs : List Value) → hooks a ≡ some k
    → (originals a).shorty ≡ ret ∷ map char_of vs
    → v.allocates ≡ true
    → ((n : ℕ) → v.boxes n ≡ true)
    → AllDescribed vs
    → (info : ℕ) × (hooked_method_callback_call v (call_words (originals a) this_address vs) a h
        ≡ returned (
            let c : HandlerCall = record {
              reflected = k.reflected;
              original = info;
              additional = k.additional;
              this_object = call_this (originals a) this_address;
              arguments = map object_of vs;
            } in
            finish_call v c (v.handler c)))
      × (callee_method h (copy_in info) ≡ returned (originals a))
hooked_method_callback_call-handler {originals} {hooks} {h} none_hooked reach a v ret this_address
      vs is_hooked shorty memory boxed described =
    callback-IsHooked a v ret this_address vs
      (subst (IsHooked originals h a) is_hooked (Reached-Refines none_hooked reach a)) shorty memory
      boxed described
