-- ===== src/Art/Originals.antt =====
-- Calls of the original of a hooked method.
use xposed.Prelude.{ℕ, ◌≡◌, ◌≢◌, false, none, some}
use xposed.Art.Defs.{Art, invoke_original_method_native, art_hook_method_native}

module _ (art : Art) where
  open art use {State, from_reflected, enable_xposed_hook, hooked_method}

  -- What a hook does to a method that has none: it is hooked, with a copy of the original that is
  -- none of the methods that were there, and no other method changes.
  pub record IsHook (s : State) (method additional_info : ℕ) : Type 0 where
    pub original : ℕ
    pub hooked : hooked_method (enable_xposed_hook method additional_info s) method ≡ some original
    pub same_reflected :
        (m : ℕ)
        → m ≢ original
        → from_reflected (enable_xposed_hook method additional_info s) m ≡ from_reflected s m
    pub copy_unhooked :
        hooked_method
          (enable_xposed_hook method additional_info s)
          (from_reflected (enable_xposed_hook method additional_info s) original)
        ≡ none
    pub others :
        (a : ℕ)
        → a ≢ method
        → hooked_method (enable_xposed_hook method additional_info s) a ≡ hooked_method s a

  -- After a method is hooked, a call of its original goes to the copy, and so does a call of the
  -- original of that copy, which does not lead back to the hook. For any other method the call goes
  -- where it went before.
  hook-originals :
      (s : State) (m additional_info : ℕ) (h : IsHook s (from_reflected s m) additional_info)
      → m ≢ h.original
      → let s' = (art_hook_method_native art (some m) additional_info s).0 in
        (invoke_original_method_native art m false s' ≡ h.original)
        × (invoke_original_method_native art h.original false s' ≡ h.original)
        × ((n : ℕ)
            → n ≢ h.original
            → from_reflected s n ≢ from_reflected s m
            → invoke_original_method_native art n false s'
              ≡ invoke_original_method_native art n false s)
  unfolding art_hook_method_native invoke_original_method_native
  hook-originals s m additional_info h apart = (
    rw (h.same_reflected m apart, h.hooked),
    rw h.copy_unhooked,
    λ n other different. rw (h.same_reflected n other, h.others (from_reflected s n) different),
  )
