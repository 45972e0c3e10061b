-- ===== src/Fd/Directory.antt =====
-- What the directory of descriptors says, and the table that `Create` makes of it.
use xposed.Prelude.{
  ◌==◌, Bool-cases, ℕ, ◌≡◌, refl, sym, subst, ◌∙◌, inl, inr, true, false, none, some, List, [], ◌∷◌,
  arith, ◌≢◌, ◌⊎◌,
}
use xposed.Fd.Info.{Info}
use xposed.Fd.Remembered.{lookup-put}
use xposed.Fd.Table.{lookup, put}
use xposed.Fd.Whole.{IsMap, IsEntry, AllEntries, if_false}

in_tail :
    (key fd : ℕ) (i j : Info) (m : List (ℕ × Info))
    → lookup key m ≡ none
    → lookup fd m ≡ some j
    → lookup fd ((key, i) ∷ m) ≡ some j
unfolding lookup
in_tail key fd i j m new found = elim (Bool-cases (key == fd)) [
  | inr other ↦ rw other found
  | inl same ↦
      let e : key ≡ fd = ground arith in
      let c : none ≡ some j = subst (λ (k : ℕ). none ≡ lookup k m) e (sym new) ∙ found in
      absurd (cc c)
]

-- Each entry of the table has a property.
pub AllEntries-lookup :
    (n : ℕ) (m : List (ℕ × Info))
    → IsMap m
    → ((fd : ℕ) (i : Info) → lookup fd m ≡ some i → IsEntry n fd i)
    → AllEntries n m
unfolding IsMap AllEntries lookup
AllEntries-lookup n [] is_map h = tt
AllEntries-lookup n ((key, i) ∷ m) (new, is_map) h = (
  h key i (let same : (key == key) ≡ true = ground arith in rw same),
  AllEntries-lookup n m is_map (λ fd j found. h fd j (in_tail key fd i j m new found)),
)

pub IsMap-put :
    (fd : ℕ) (i : Info) (m : List (ℕ × Info)) → IsMap m → lookup fd m ≡ none → IsMap (put fd i m)
unfolding IsMap put lookup
IsMap-put fd i [] is_map new = (refl, tt)
IsMap-put fd i ((key, j) ∷ m) (unused, is_map) new = elim (Bool-cases (key == fd)) [
  | inl same ↦ let c : some j ≡ none = rw same at new in absurd (cc c)
  | inr other ↦
      let rest : lookup fd m ≡ none = rw other at new in
      let apart : (fd == key) ≡ false = ground arith in
      rw other (
        lookup-put key fd i m ∙ sym (if_false (fd == key) (some i) (lookup key m) apart) ∙ unused,
        IsMap-put fd i m is_map rest,
      )
]

pub put-cases :
    (j fd : ℕ) (i : Info) (m : List (ℕ × Info))
    → ((j ≡ fd) × (lookup j (put fd i m) ≡ some i))
      ⊎ ((j ≢ fd) × (lookup j (put fd i m) ≡ lookup j m))
put-cases j fd i m = elim (Bool-cases (fd == j)) [
  | inl same ↦ inl (ground arith, lookup-put j fd i m ∙ rw same)
  | inr other ↦
      inr (λ e. ground arith, lookup-put j fd i m ∙ sym (if_false (fd == j) (some i) _ other))
]

pub put-other :
    (j fd : ℕ) (i : Info) (m : List (ℕ × Info)) → j ≢ fd → lookup j (put fd i m) ≡ lookup j m
put-other j fd i m other = elim (put-cases j fd i m) [
  | inl (same, _) ↦ absurd (other same)
  | inr (_, before) ↦ before
]
