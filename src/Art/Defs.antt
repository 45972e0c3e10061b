-- ===== src/Art/Defs.antt =====
-- libxposed_art.cpp, lines 53-58, 78-112 and 185-209. ART is not in this repository: an interface with
-- the calls that the code makes.
use xposed.Prelude.{
  if◌then◌else◌, ℕ, Bool, true, false, not, Option, none, some, List, [], ◌∷◌, ◌++◌, map,
}

-- `from_reflected s m` is the method that the Java object `m` reflects; `hooked_method s a` is the
-- `reflected_method` of the hook's information, if the method `a` is hooked.
pub record Art : Type 1 where
  pub State : Type 0
  pub from_reflected : State → ℕ → ℕ
  pub enable_xposed_hook : (method additional_info : ℕ) → State → State
  pub hooked_method : State → ℕ → Option ℕ

-- The static members of `ArtMethod`.
pub record Callback : Type 0 where
  pub xposed_callback_class : ℕ
  pub xposed_callback_method : ℕ

-- The members get the class and the handler that were found in Java; the result is always true.
unfoldable pub art_on_vm_created :
    (class_xposed_bridge method_handle_hooked_method : ℕ) → Callback → Callback × Bool
art_on_vm_created class_xposed_bridge method_handle_hooked_method before = (
  record {
    xposed_callback_class = class_xposed_bridge;
    xposed_callback_method = method_handle_hooked_method;
  },
  true,
)

module _ (art : Art) where
  open art use {State, from_reflected, enable_xposed_hook, hooked_method}

  -- The state afterwards, and whether an exception was thrown: the method must not be null.
  unfoldable pub art_hook_method_native : Option ℕ → (additional_info : ℕ) → State → State × Bool
  art_hook_method_native none additional_info s = (s, true)
  art_hook_method_native (some m) additional_info s =
      (enable_xposed_hook (from_reflected s m) additional_info s, false)

  -- The method that `InvokeMethod` is called with.
  unfoldable pub invoke_original_method_native : (method : ℕ) (is_resolved : Bool) → State → ℕ
  invoke_original_method_native method is_resolved s =
      if not is_resolved
      then elim (hooked_method s (from_reflected s method)) [
        | none ↦ method
        | some original ↦ original
      ]
      else method

-- What `invalidateCallersNative` does, in order.
pub data Invalidation : Type 0 where
  invalidates_callers : (method : ℕ) → Invalidation
  suspends_all : Invalidation
  instruments : (thread : ℕ) → Invalidation

-- The loop over the methods; a null is skipped.
unfoldable pub invalidate_methods : (methods : List (Option ℕ)) → List Invalidation
invalidate_methods [] = []
invalidate_methods (none ∷ methods) = invalidate_methods methods
invalidate_methods (some m ∷ methods) = invalidates_callers m ∷ invalidate_methods methods

unfoldable pub invalidate_callers_native :
    (methods : List (Option ℕ)) (threads : List ℕ) → List Invalidation
invalidate_callers_native methods threads =
    invalidate_methods methods ++ (suspends_all ∷ map instruments threads)
