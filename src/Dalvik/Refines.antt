-- ===== src/Dalvik/Refines.antt =====
-- The hooks as a map: which method is hooked, with which objects, and that each hooked method's original
-- stays what it was.
use xposed.Prelude.{
  ℕ, ◌≡◌, ◌∙◌, true, false, Option, none, some, ◌==◌, Bool-cases, inl, inr, sym, ap, subst, arith,
  Option-cases,
}
use xposed.Dalvik.Defs.{Method, XposedHookInfo, Heap, is_method_hooked, update_at}
use xposed.Dalvik.Hook.{
  hooked, HookRequest, reset_jit, install, already_hooked, hook_method_native, newly_hooked,
}
use xposed.Run.{returned}

-- What a hook was installed with.
pub record Hook : Type 0 where
  pub reflected : ℕ
  pub additional : ℕ

-- The abstract state: the hooks by the method's address.
abbrev pub Hooks : Type 0
Hooks = ℕ → Option Hook

-- The first hook of a method stays.
unfoldable pub add_hook : ℕ → Hook → Hooks → Hooks
add_hook a k hooks = elim (hooks a) [ none ↦ update_at hooks a (some k) | some _ ↦ hooks ]

-- A method of the machine, given its original, its hook and its hook record.
pub data IsHooked (originals : ℕ → Method) (h : Heap) (a : ℕ) : Option Hook → Type 0 where
  untouched : h.methods a ≡ originals a → IsHooked originals h a none
  swapped :
      {k : Hook} (info : ℕ)
      → h.methods a ≡ hooked info (originals a)
      → h.infos info
        ≡ some (record {
          original_method = originals a;
          reflected_method = k.reflected;
          additional_info = k.additional;
        })
      → IsHooked originals h a (some k)

-- The machine implements the hooks.
abbrev pub Refines : (ℕ → Method) → Hooks → Heap → Type 0
Refines originals hooks h = (a : ℕ) → IsHooked originals h a (hooks a)

-- Before the first hook no method is hooked.
abbrev pub NoneHooked : (ℕ → Method) → Type 0
NoneHooked originals = (a : ℕ) → is_method_hooked (originals a) ≡ false

hooked-is_method_hooked :
    {originals : ℕ → Method} {h : Heap} {a : ℕ} {k : Hook} {o : Option Hook}
    → o ≡ some k
    → IsHooked originals h a o
    → is_method_hooked (h.methods a) ≡ true
unfolding is_method_hooked hooked
hooked-is_method_hooked e (untouched same) = cc e
hooked-is_method_hooked e (swapped info same there) = rw same

none-is_method_hooked :
    {originals : ℕ → Method} {h : Heap} {a : ℕ} {o : Option Hook}
    → NoneHooked originals
    → o ≡ none
    → IsHooked originals h a o
    → is_method_hooked (h.methods a) ≡ false
none-is_method_hooked {originals} {h} {a} clean e (untouched same) = rw same (clean a)
none-is_method_hooked clean e (swapped info same there) = cc e

add_hook-none :
    (a : ℕ) (k : Hook) (hooks : Hooks)
    → hooks a ≡ none
    → update_at hooks a (some k) ≡ add_hook a k hooks
unfolding add_hook
add_hook-none a k hooks e = rw (add_hook, e)

add_hook-some : (a : ℕ) (k j : Hook) (hooks : Hooks) → hooks a ≡ some j → hooks ≡ add_hook a k hooks
unfolding add_hook
add_hook-some a k j hooks e = rw (add_hook, e)

-- The block that `calloc` gives was free.
abbrev pub IsFree : Heap → ℕ → Type 0
IsFree h info = h.infos info ≡ none

-- Another hook record changes nothing for a method.
frame-IsHooked :
    {originals : ℕ → Method} {h : Heap} {b : ℕ} {o : Option Hook} (methods' : ℕ → Method)
    (infos' : ℕ → Option XposedHookInfo) (jit : Option ℕ)
    → methods' b ≡ h.methods b
    → ((i : ℕ) (x : XposedHookInfo) → h.infos i ≡ some x → infos' i ≡ some x)
    → IsHooked originals h b o
    → IsHooked originals (record { methods = methods'; infos = infos'; code_cache_full = jit }) b o
frame-IsHooked methods' infos' jit same kept (untouched e) = untouched (same ∙ e)
frame-IsHooked methods' infos' jit same kept (swapped info e there) =
    swapped info (same ∙ e) (kept info _ there)

update_at-other :
    {A : Type 0} (f : ℕ → Option A) (a b : ℕ) (x : Option A) (y : A)
    → f a ≡ none
    → f b ≡ some y
    → update_at f a x b ≡ some y
update_at-other f a b x y h k = elim (Bool-cases (a == b)) [
  | inr other ↦ rw other k
  | inl same ↦
      let e : a ≡ b = ground arith in absurd (none-some (subst (λ (i : ℕ). f i ≡ none) e h) k)
]
  where
    none-some : {B : Type 0} {o : Option B} {v : B} → o ≡ none → o ≡ some v → ⊥
    none-some h k = cc (h, k)

update_at-same : {A : Type 0} (f : ℕ → A) (a : ℕ) (x : A) → update_at f a x a ≡ x
update_at-same f a x = let e : (a == a) ≡ true = ground arith in rw e

none-untouched :
    {originals : ℕ → Method} {h : Heap} {a : ℕ} {o : Option Hook}
    → o ≡ none
    → IsHooked originals h a o
    → h.methods a ≡ originals a
none-untouched e (untouched same) = same
none-untouched e (swapped info same there) = cc e

-- The record of a hook.
abbrev hook_record : Method → HookRequest → Option XposedHookInfo
hook_record m r =
    some (record {
      original_method = m;
      reflected_method = r.reflected;
      additional_info = r.additional;
    })

-- The machine behind an installation.
abbrev installed : ℕ → ℕ → HookRequest → Heap → Heap
installed info a r h = record {
  methods = update_at h.methods a (hooked info (h.methods a));
  infos = update_at h.infos info (hook_record (h.methods a) r);
  code_cache_full = reset_jit h.code_cache_full;
}

abbrev pub hook_of : HookRequest → Hook
hook_of r = record { reflected = r.reflected; additional = r.additional }

module _ (originals : ℕ → Method) (clean : NoneHooked originals) where
  installed-IsHooked :
      (info a b : ℕ) (r : HookRequest) (hooks : Hooks) (h : Heap)
      → IsFree h info
      → hooks a ≡ none
      → Refines originals hooks h
      → IsHooked originals (installed info a r h) b (update_at hooks a (some (hook_of r)) b)
  installed-IsHooked info a b r hooks h free none_yet refines = elim (Bool-cases (a == b)) [
    | inr other ↦ rw other (
        frame-IsHooked {b = b} _ _ _ (rw other) (λ i x e. update_at-other h.infos info i _ x free e)
          (refines b))
    | inl same ↦
        let e : a ≡ b = ground arith in
        let was : h.methods a ≡ originals a = none-untouched none_yet (refines a) in
        subst
          (λ (c : ℕ).
            IsHooked originals (installed info a r h) c (update_at hooks a (some (hook_of r)) c))
          e
          (subst (λ o. IsHooked originals (installed info a r h) a o)
            (sym (update_at-same hooks a (some (hook_of r))))
            (swapped info (update_at-same h.methods a _ ∙ ap (hooked info) was)
              (update_at-same h.infos info _ ∙ ap (λ (m : Method). hook_record m r) was)))
  ]

  hook_method_native-Refines_hooked :
      (calloc : Option ℕ) (a : ℕ) (r : HookRequest) (k : Hook) (hooks : Hooks) (h : Heap)
      → r.has_declared_class ≡ true
      → r.has_method ≡ true
      → r.slot_method ≡ some a
      → hooks a ≡ some k
      → Refines originals hooks h
      → hook_method_native calloc r h ≡ returned (already_hooked, h)
  unfolding hook_method_native
  hook_method_native-Refines_hooked calloc a r k hooks h has_class has_meth slot already refines =
      let hooked_now = hooked-is_method_hooked already (refines a) in ground (arith, hooked_now)

  -- Where no method is hooked at the start, the request names a class and a method and `calloc`
  -- gives a free block, hooking succeeds, and does to the machine what adding a hook does to the
  -- map: the first hook of a method stays, and every original and every other hook is kept.
  pub hook_method_native-Refines :
      (info a : ℕ) (r : HookRequest) (hooks : Hooks) (h : Heap)
      → r.has_declared_class ≡ true
      → r.has_method ≡ true
      → r.slot_method ≡ some a
      → IsFree h info
      → Refines originals hooks h
      → (h' : Heap) × (hook_method_native (some info) r h
          ≡ returned (elim (hooks a) [ none ↦ newly_hooked | some _ ↦ already_hooked ], h'))
        × Refines originals (add_hook a (hook_of r) hooks) h'
  unfolding install hook_method_native
  hook_method_native-Refines info a r hooks h has_class has_meth slot free refines =
      elim (Option-cases (hooks a)) [
        | inr (k, already) ↦ (
          h,
          hook_method_native-Refines_hooked (some info) a r k hooks h has_class has_meth slot
                already refines
              ∙ rw already,
          subst (λ x. Refines originals x h) (add_hook-some a (hook_of r) k hooks already) refines,
        )
        | inl none_yet ↦
            let not_yet = none-is_method_hooked clean none_yet (refines a) in
            (
              installed info a r h,
              rw none_yet (ground (arith, not_yet)),
              subst (λ x. Refines originals x (installed info a r h))
                  (add_hook-none a (hook_of r) hooks none_yet)
                  (λ b. installed-IsHooked info a b r hooks h free none_yet refines),
            )
      ]
