-- ===== src/Dalvik/Objects.antt =====
-- The functions on objects and classes: lines 307-346 of libxposed_dalvik.cpp, and those of
-- libxposed_art.cpp, lines 114-140 and 156-164.
use xposed.Prelude.{
  ◌==◌, if◌then◌else◌, Bytes, length, ℕ, ◌<◌, ◌≡◌, Bool, false, not, ◌&&◌, Option, none, some, [],
  ◌++◌, ap, arith,
}
use xposed.Run.{◌>>=◌, Run, fault, returned, memcpy, memcpy-append, memcpy-fault}

-- An object: its class, and the bytes behind the header.
pub record HeapObject : Type 0 where
  pub clazz : ℕ
  pub contents : Bytes

-- A class: whether it is or can be initialised, its flags, and the size of its objects without the header.
pub record HeapClass : Type 0 where
  pub address : ℕ
  pub is_initialized : Bool
  pub initializes : Bool
  pub is_final : Bool
  pub object_size : ℕ

unfoldable pub set_object_class : HeapClass → HeapObject → HeapObject
set_object_class c o =
    if not c.is_initialized && not c.initializes then o else record o { clazz = c.address }

-- What the function of ART does: the object, or the exception for sizes that differ.
unfoldable pub art_set_object_class : HeapClass → HeapObject → Option HeapObject
art_set_object_class c o =
    if not c.is_initialized && not c.initializes
    then some o
    else if not (c.object_size == length o.contents)
    then none
    else some (record o { clazz = c.address })

-- `allocated` are the contents of a new object of the class, if there is memory for one.
unfoldable pub clone_to_subclass :
    HeapClass → HeapObject → (allocated : Option Bytes) → Run (Option HeapObject)
clone_to_subclass c o none = returned none
clone_to_subclass c o (some fresh) = do
  contents ← memcpy 0 o.contents fresh
  returned (some (record { clazz = c.address; contents = contents }))

unfoldable pub remove_final_flag : HeapClass → HeapClass
remove_final_flag c = if c.is_final then record c { is_final = false } else c

-- A clone has the fields of the object, then those that its class adds as they were allocated; the
-- objects of the class must be at least as large, which the function does not test.
pub clone_to_subclass-extends :
    (c : HeapClass) (o : HeapObject) (fresh added : Bytes)
    → length fresh ≡ length o.contents
    → clone_to_subclass c o (some (fresh ++ added))
      ≡ returned (some (record { clazz = c.address; contents = o.contents ++ added }))
unfolding clone_to_subclass
clone_to_subclass-extends c o fresh added same = rw (memcpy-append [] o.contents fresh added same)

-- Where the object is larger than those of the class, the copy leaves the new one.
pub clone_to_subclass-fault :
    (c : HeapClass) (o : HeapObject) (fresh : Bytes)
    → length fresh < length o.contents
    → clone_to_subclass c o (some fresh) ≡ fault
unfolding clone_to_subclass
clone_to_subclass-fault c o fresh small =
    ap (λ (r : Run Bytes). r >>= λ b. returned (some (record { clazz = c.address; contents = b })))
      (memcpy-fault 0 o.contents fresh (omega arith))
