-- ===== src/Bridge/Loaded.antt =====
-- What the library relies on once it says that it is loaded.
use xposed.Prelude.{
  ◌≡◌, true, arith, Bool, false, Bool-cases, Option-cases, Bytes, sym, ap, subst, ◌∙◌, inl, inr,
  ◌&&◌, Option, ℕ,
}
use xposed.Bridge.Init.{
  Bridge, Jni, is_set, init_xposed_bridge, init_file_result, init_zygote_service,
  on_vm_created_common, had_init_errors, load_library, class_xposed_bridge_name,
  class_file_result_name,
}
use xposed.Startup.Defs.{determine_runtime}

-- All that the callbacks of hooks and the file functions use.
pub record IsReady (b : Bridge) : Type 0 where
  pub has_bridge : is_set b.class_xposed_bridge ≡ true
  pub has_handler : is_set b.method_handle_hooked_method ≡ true
  pub has_file_result : is_set b.class_file_result ≡ true
  pub has_constructor : is_set b.constructor_file_result ≡ true

-- `NewGlobalRef` does not run out of memory.
abbrev pub HasMemory : Jni → Type 0
HasMemory jni = (c : ℕ) → is_set (jni.new_global_ref c) ≡ true

module _ (jni : Jni) (memory : HasMemory jni) where
  init_xposed_bridge-has :
      (b : Bridge)
      → (init_xposed_bridge jni b).0 ≡ true
      → (is_set (init_xposed_bridge jni b).1.class_xposed_bridge ≡ true)
        × (is_set (init_xposed_bridge jni b).1.method_handle_hooked_method ≡ true)
  unfolding init_xposed_bridge
  init_xposed_bridge-has b h = elim (Option-cases (jni.find_class class_xposed_bridge_name)) [
    | inl missing ↦ ground arith
    | inr (c, found) ↦ let m = memory c in ground arith
  ]

  init_zygote_service-has :
      (b : Bridge)
      → (init_zygote_service jni b).0 ≡ true
      → (is_set (init_zygote_service jni b).1.class_file_result ≡ true)
        × (is_set (init_zygote_service jni b).1.constructor_file_result ≡ true)
  unfolding init_zygote_service init_file_result
  init_zygote_service-has b h = elim (Option-cases (jni.find_class class_file_result_name)) [
    | inl missing ↦ ground arith
    | inr (c, found) ↦ let m = memory c in ground arith
  ]

  init_zygote_service-keeps :
      (b : Bridge)
      → ((init_zygote_service jni b).1.class_xposed_bridge ≡ b.class_xposed_bridge)
        × ((init_zygote_service jni b).1.method_handle_hooked_method
            ≡ b.method_handle_hooked_method)
        × ((init_zygote_service jni b).1.xposed_loaded_successfully ≡ b.xposed_loaded_successfully)
  unfolding init_zygote_service init_file_result
  init_zygote_service-keeps b = ground arith

  init_xposed_bridge-keeps :
      (b : Bridge)
      → (init_xposed_bridge jni b).1.xposed_loaded_successfully ≡ b.xposed_loaded_successfully
  unfolding init_xposed_bridge
  init_xposed_bridge-keeps b = ground arith

  not_loaded :
      {A : Type 0} (b b' : Bridge)
      → b ≡ b'
      → b'.xposed_loaded_successfully ≡ false
      → b.xposed_loaded_successfully ≡ true
      → A
  not_loaded b b' same h k =
      absurd (cc (ap (λ (c : Bridge). c.xposed_loaded_successfully) same, h, k))

  on_vm_created_common-IsReady :
      (on_vm_created : Bridge → Bool) (b : Bridge)
      → b.xposed_loaded_successfully ≡ false
      → (on_vm_created_common jni on_vm_created b).xposed_loaded_successfully ≡ true
      → IsReady (on_vm_created_common jni on_vm_created b)
  unfolding on_vm_created_common
  on_vm_created_common-IsReady v b fresh loaded =
      let b₁ = (init_xposed_bridge jni b).1 in
      let b₂ = (init_zygote_service jni b₁).1 in
      let fresh₁ = init_xposed_bridge-keeps b ∙ fresh in
      let (bridge, handler, same_flag) = init_zygote_service-keeps b₁ in
      elim (Bool-cases (init_xposed_bridge jni b).0) [
        | inr bad ↦ not_loaded (on_vm_created_common jni v b) b₁ (rw bad) fresh₁ loaded
        | inl has ↦ elim (Bool-cases (init_zygote_service jni b₁).0) [
          | inr bad ↦
              not_loaded (on_vm_created_common jni v b) b₂ (rw (has, bad)) (same_flag ∙ fresh₁)
                loaded
          | inl has_service ↦ elim (Bool-cases (v b₂)) [
            | inr bad ↦
                not_loaded (on_vm_created_common jni v b) b₂ (rw (has, has_service, bad))
                  (same_flag ∙ fresh₁) loaded
            | inl fine ↦
                let (has_class, has_method) = init_xposed_bridge-has b has in
                let (result, constructor) = init_zygote_service-has b₁ has_service in
                rw (has, has_service, fine)
                  (record {
                    has_bridge = ap is_set bridge ∙ has_class;
                    has_handler = ap is_set handler ∙ has_method;
                    has_file_result = result;
                    has_constructor = constructor;
                  })
          ]
        ]
      ]

  -- Where the library, not marked as loaded before, reports no errors of its start, and `NewGlobalRef`
  -- has memory, which the code does not test, the two classes, the handler of hooks and the
  -- constructor of results are all there: the callbacks use them without a test.
  pub load_library-IsReady :
      (maps : Option Bytes) (opens finds initializes : Bool) (on_vm_created : Bridge → Bool)
      (b : Bridge)
      → b.xposed_loaded_successfully ≡ false
      → had_init_errors jni (load_library jni maps opens finds initializes on_vm_created b) ≡ false
      → IsReady (load_library jni maps opens finds initializes on_vm_created b)
  unfolding load_library had_init_errors
  load_library-IsReady maps opens finds initializes v b fresh no_errors =
      let loaded : (load_library jni maps opens finds initializes v b).xposed_loaded_successfully
          ≡ true =
        ground arith in
      elim (Option-cases (determine_runtime maps)) [
        | inl unknown ↦
            not_loaded (load_library jni maps opens finds initializes v b) b
              (rw (load_library, unknown)) fresh loaded
        | inr (r, known) ↦ elim (Bool-cases (opens && finds && initializes)) [
          | inr bad ↦
              not_loaded (load_library jni maps opens finds initializes v b) b
                (rw (load_library, known, bad)) fresh loaded
          | inl all ↦
              let same : load_library jni maps opens finds initializes v b
                  ≡ on_vm_created_common jni v b =
                rw (load_library, known, all) in
              subst IsReady (sym same) (
                on_vm_created_common-IsReady v b fresh
                  (ap (λ (c : Bridge). c.xposed_loaded_successfully) (sym same) ∙ loaded))
        ]
      ]
