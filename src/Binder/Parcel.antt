-- ===== src/Binder/Parcel.antt =====
-- `Parcel` of the binder library, which is not in this repository: an interface that the proxies and the
-- service use. A parcel holds items in the order in which they were written, and gives them back in it.
use xposed.Prelude.{
  eqb_text, Bytes, length, ℤ, pos, negsuc, eqb_ℤ, ℕ, ◌≤◌, ◌≡◌, refl, Bool, true, false, List, [],
  ◌∷◌, ◌++◌, arith,
}

pub data Item : Type 0 where
  token : Bytes → Item
  int32 : ℤ → Item
  int64 : ℤ → Item
  string16 : Bytes → Item
  strong_binder : ℕ → Item
  raw : Bytes → Item

-- The operations. `write` stands for the function of the item's kind, `write_no_exception` and
-- `read_exception_code` are the header of a reply.
pub record ParcelLib : Type 1 where
  pub Parcel : Type 0
  pub empty : Parcel
  pub write : Item → Parcel → Parcel
  pub write_no_exception : Parcel → Parcel
  pub enforce_interface : Bytes → Parcel → Bool × Parcel
  pub read_int32 : Parcel → ℤ × Parcel
  pub read_int64 : Parcel → ℤ × Parcel
  pub read_string16 : Parcel → Bytes × Parcel
  pub read_strong_binder : Parcel → ℕ × Parcel
  pub read_exception_code : Parcel → ℤ × Parcel
  pub data_avail : Parcel → ℕ

-- A read gives the value, and a parcel with what is behind it.
abbrev pub Gives : {P : Type 0} {A : Type 0} → (P → List Item) → A × P → A → List Item → Type 0
Gives items r a rest = (r.0 ≡ a) × (items r.1 ≡ rest)

-- The documented behaviour. `EX_HAS_REPLY_HEADER` is -128; every other code is read as it is. A read
-- from a parcel that is at its end gives 0.
pub record IsParcel (lib : ParcelLib) : Type 0 where
  pub items : lib.Parcel → List Item
  pub items_empty : items lib.empty ≡ []
  pub items_write : (i : Item) (p : lib.Parcel) → items (lib.write i p) ≡ items p ++ (i ∷ [])
  pub items_no_exception :
      (p : lib.Parcel) → items (lib.write_no_exception p) ≡ items p ++ (int32 (pos 0) ∷ [])
  pub enforces :
      (p : lib.Parcel) (t : Bytes) (rest : List Item)
      → items p ≡ token t ∷ rest
      → Gives items (lib.enforce_interface t p) true rest
  pub reads_int32 :
      (p : lib.Parcel) (n : ℤ) (rest : List Item)
      → items p ≡ int32 n ∷ rest
      → Gives items (lib.read_int32 p) n rest
  pub reads_int64 :
      (p : lib.Parcel) (n : ℤ) (rest : List Item)
      → items p ≡ int64 n ∷ rest
      → Gives items (lib.read_int64 p) n rest
  pub reads_string16 :
      (p : lib.Parcel) (s : Bytes) (rest : List Item)
      → items p ≡ string16 s ∷ rest
      → Gives items (lib.read_string16 p) s rest
  pub reads_strong_binder :
      (p : lib.Parcel) (b : ℕ) (rest : List Item)
      → items p ≡ strong_binder b ∷ rest
      → Gives items (lib.read_strong_binder p) b rest
  pub reads_exception_code :
      (p : lib.Parcel) (n : ℤ) (rest : List Item)
      → eqb_ℤ n (negsuc 127) ≡ false
      → items p ≡ int32 n ∷ rest
      → Gives items (lib.read_exception_code p) n rest
  pub available :
      (p : lib.Parcel) (bs : Bytes) (rest : List Item)
      → items p ≡ raw bs ∷ rest
      → length bs ≤ lib.data_avail p
  pub ends_exception_code :
      (p : lib.Parcel) → items p ≡ [] → Gives items (lib.read_exception_code p) (pos 0) []
  pub ends_int32 : (p : lib.Parcel) → items p ≡ [] → Gives items (lib.read_int32 p) (pos 0) []

-- The list of the items is such a parcel.
abbrev list_read_int32 : List Item → ℤ × List Item
list_read_int32 (int32 n ∷ p) = (n, p)
list_read_int32 p = (pos 0, p)

abbrev list_read_int64 : List Item → ℤ × List Item
list_read_int64 (int64 n ∷ p) = (n, p)
list_read_int64 p = (pos 0, p)

abbrev list_read_string16 : List Item → Bytes × List Item
list_read_string16 (string16 s ∷ p) = (s, p)
list_read_string16 p = ([], p)

abbrev list_read_strong_binder : List Item → ℕ × List Item
list_read_strong_binder (strong_binder b ∷ p) = (b, p)
list_read_strong_binder p = (0, p)

abbrev list_enforce_interface : Bytes → List Item → Bool × List Item
list_enforce_interface t (token s ∷ p) = (eqb_text t s, p)
list_enforce_interface t p = (false, p)

abbrev list_data_avail : List Item → ℕ
list_data_avail (raw bs ∷ p) = length bs
list_data_avail p = 0

abbrev pub list_parcels : ParcelLib
list_parcels = record {
  Parcel = List Item;
  empty = [];
  write = λ i p. p ++ (i ∷ []);
  write_no_exception = λ p. p ++ (int32 (pos 0) ∷ []);
  enforce_interface = list_enforce_interface;
  read_int32 = list_read_int32;
  read_int64 = list_read_int64;
  read_string16 = list_read_string16;
  read_strong_binder = list_read_strong_binder;
  read_exception_code = list_read_int32;
  data_avail = list_data_avail;
}

eqb_text_refl : (s : Bytes) → eqb_text s s ≡ true
eqb_text_refl [] = refl
eqb_text_refl (x ∷ s) = ground (arith, eqb_text_refl s)

pub list_parcels-IsParcel : IsParcel list_parcels
list_parcels-IsParcel = record {
  items = λ p. p;
  items_empty = refl;
  items_write = λ i p. refl;
  items_no_exception = λ p. refl;
  enforces = λ p t rest e. (rw (e, eqb_text_refl t), rw e);
  reads_int32 = λ p n rest e. (rw e, rw e);
  reads_int64 = λ p n rest e. (rw e, rw e);
  reads_string16 = λ p s rest e. (rw e, rw e);
  reads_strong_binder = λ p b rest e. (rw e, rw e);
  reads_exception_code = λ p n rest c e. (rw e, rw e);
  available = λ p bs rest e. rw e (omega arith);
  ends_exception_code = λ p e. (rw e, rw e);
  ends_int32 = λ p e. (rw e, rw e);
}
