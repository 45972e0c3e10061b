-- ===== src/Dalvik/Start.antt =====
-- The start of the library in Dalvik: lines 44-117 of libxposed_dalvik.cpp, and `readIntConfig` of
-- libxposed_common.cpp.
use xposed.Prelude.{
  ltb, if◌then◌else◌, ℤ, pos_part, minus_one, is_positive, ℕ, ◌≤◌, ◌<◌, ◌≡◌, Bool, true, false, not,
  ◌&&◌, ◌||◌, Option, none, some, arith,
}

-- Lines 51-61 of libxposed_common.cpp, given the number that `fscanf` reads, if the file is there and
-- begins with one.
unfoldable pub read_int_config : (file : Option (Option ℤ)) → (default_value : ℤ) → ℤ
read_int_config none default_value = default_value
read_int_config (some none) default_value = default_value
read_int_config (some (some result)) default_value = result

-- The offsets in structures of the virtual machine.
pub record MemberOffsets : Type 0 where
  pub with_jit : Bool
  pub code_cache_full : ℕ
  pub array_contents : ℕ

-- Lines 79-117. `defaults` are the offsets of `codeCacheFull` with and without a compiler, `found`
-- the offset of the elements of a new array, if one could be made.
unfoldable pub init_member_offsets :
    (has_jit : Bool) (defaults : Bool → ℕ) (jit_reset_offset : Option (Option ℤ)) (found : Option ℕ)
    → MemberOffsets
    → Bool × MemberOffsets
init_member_offsets has_jit defaults jit_reset_offset found o =
    let override = read_int_config jit_reset_offset minus_one in
    let o' : MemberOffsets = record o {
      with_jit = has_jit;
      code_cache_full =
          if is_positive override && ltb (pos_part override) 1024
          then pos_part override
          else defaults has_jit;
    } in
    elim found [
      | none ↦ (false, o')
      | some offset ↦ (not (ltb offset 12 || ltb 128 offset), record o' { array_contents = offset })
    ]

-- What the virtual machine answers: the final flag of MIUI's resources, if there is such a class,
-- the method in which the original is called, and the class of arrays of objects.
pub record DalvikStart : Type 0 where
  pub miui_is_final : Option Bool
  pub finds_invoke_original : Bool
  pub finds_object_array : Bool

-- What the start leaves behind.
pub record DalvikStarted : Type 0 where
  pub offsets : MemberOffsets
  pub miui_is_final : Option Bool
  pub sets_invoke_original : Bool
  pub has_object_array : Bool

-- Lines 48-55: the flag of MIUI's class behind the start.
unfoldable pub without_final : Option Bool → Option Bool
without_final none = none
without_final (some is_final) = some false

-- Lines 44-77, with the result and the offsets of `initMemberOffsets`.
unfoldable pub on_vm_created : DalvikStart → Bool × MemberOffsets → Bool × DalvikStarted
on_vm_created d (has_offsets, offsets) =
    let s : DalvikStarted = record {
      offsets = offsets;
      miui_is_final = d.miui_is_final;
      sets_invoke_original = false;
      has_object_array = false;
    } in
    if not has_offsets
    then (false, s)
    else if not d.finds_invoke_original
    then (false, record s { miui_is_final = without_final d.miui_is_final })
    else (
      d.finds_object_array,
      record s {
        miui_is_final = without_final d.miui_is_final;
        sets_invoke_original = true;
        has_object_array = d.finds_object_array;
      },
    )

-- If the start succeeds, the elements of an array are looked for between 12 and 128 bytes behind its
-- beginning, an override of the compiler's offset was taken only below 1024, and the array class
-- and the native method that hooks use are there.
pub on_vm_created-offsets :
    (d : DalvikStart) (has_jit : Bool) (defaults : Bool → ℕ) (file : Option (Option ℤ))
    (found : Option ℕ) (o : MemberOffsets)
    → defaults has_jit < 1024
    → (on_vm_created d (init_member_offsets has_jit defaults file found o)).0 ≡ true
    → let s = (on_vm_created d (init_member_offsets has_jit defaults file found o)).1 in
      (12 ≤ s.offsets.array_contents)
      × (s.offsets.array_contents ≤ 128)
      × (s.offsets.code_cache_full < 1024)
      × (s.sets_invoke_original ≡ true)
      × (s.has_object_array ≡ true)
unfolding on_vm_created init_member_offsets
on_vm_created-offsets d has_jit defaults file none o small h = cc h
on_vm_created-offsets d has_jit defaults file (some offset) o small h = ground arith
