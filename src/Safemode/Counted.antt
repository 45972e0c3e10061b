-- ===== src/Safemode/Counted.antt =====
-- What lines 284-314 of `detectSafemodeTrigger` make of a batch of events.
use xposed.Prelude.{
  ltb, ◌==◌, if◌then◌else◌, Bool-cases, Option-cases, length, ℕ, ◌+◌, ◌≡◌, refl, sym, ◌∙◌, ◌≢◌, ◌⊎◌,
  inl, inr, Bool, true, List, [], ◌∷◌, ◌++◌, arith,
}
use xposed.Safemode.Defs.{detection_presses, vibration_short, KeyCodes, vibrate}
use xposed.Safemode.Detect.{
  Reading, Count, Batch, goes_on, stops, pressed_code, count_press, count_batch,
}
use xposed.Safemode.Presses.{presses, AllAre}

pub Batch-cases : (b : Batch) → ((c : Count) × (b ≡ stops c)) ⊎ ((c : Count) × (b ≡ goes_on c))
Batch-cases (stops c) = inl (c, refl)
Batch-cases (goes_on c) = inr (c, refl)

-- One press more.
abbrev counted : Bool → Count → Count
counted v c = record {
  presses = c.presses + 1;
  effects =
      if ltb (c.presses + 1) detection_presses
      then c.effects ++ vibrate v 1 vibration_short 0
      else c.effects;
}

count_press-same :
    (k : KeyCodes) (v : Bool) (key code : ℕ) (c : Count)
    → key ≡ code
    → count_press k v key code c ≡ goes_on (counted v c)
unfolding count_press
count_press-same k v key code c h = let same : (key == code) ≡ true = ground arith in rw same

count_press-other :
    (k : KeyCodes) (v : Bool) (key code : ℕ) (c : Count)
    → key ≢ code
    → count_press k v key code c ≡ stops c
unfolding count_press
count_press-other k v key code c h = elim (Bool-cases (key == code)) [
  | inl same ↦ let e : key ≡ code = ground arith in absurd (h e)
  | inr other ↦ rw other
]

same_after :
    (b : Batch) (f g : Count → Batch)
    → ((c : Count) → f c ≡ g c)
    → (elim b as (λ _. Batch) [ stops c ↦ stops c | goes_on c ↦ f c ])
      ≡ (elim b as (λ _. Batch) [ stops c ↦ stops c | goes_on c ↦ g c ])
same_after (stops c) f g h = refl
same_after (goes_on c) f g h = h c

module _ (k : KeyCodes) (v : Bool) (key : ℕ) where
  -- The loop over a batch does what a loop over its presses would do.
  count_all : Count → List ℕ → Batch
  count_all c [] = goes_on c
  count_all c (code ∷ codes) = elim (count_press k v key code c) [
    | stops c' ↦ stops c'
    | goes_on c' ↦ count_all c' codes
  ]

  count_batch-count_all :
      (c : Count) (rs : List Reading) → count_batch k v key c rs ≡ count_all c (presses k rs)
  unfolding count_batch presses count_all
  count_batch-count_all c [] = refl
  count_batch-count_all c (r ∷ rs) = elim (Option-cases (pressed_code k r)) [
    | inl nothing ↦ rw (nothing, count_batch, presses) (count_batch-count_all c rs)
    | inr (code, pressed) ↦
        rw (pressed, count_batch, presses)
          (same_after (count_press k v key code c) (λ c'. count_batch k v key c' rs)
            (λ c'. count_all c' (presses k rs)) (λ c'. count_batch-count_all c' rs))
  ]

  -- A batch is worked off exactly when every press in it is one of the key, and then all are counted.
  count_all-goes_on :
      (c c' : Count) (codes : List ℕ)
      → count_all c codes ≡ goes_on c'
      → AllAre key codes × (c'.presses ≡ c.presses + length codes)
  unfolding count_all count_press AllAre
  count_all-goes_on c c' [] h = (tt, ground arith)
  count_all-goes_on c c' (code ∷ codes) h = elim (Bool-cases (key == code)) [
    | inl same ↦
        let (p, q) = count_all-goes_on (counted v c) c' codes (rw (same, count_all) at h) in
        ((ground arith, p), omega (arith, q))
    | inr other ↦ let e : stops c ≡ goes_on c' = rw (other, count_all) at h in absurd (cc e)
  ]

  all-goes_on :
      (c : Count) (codes : List ℕ)
      → AllAre key codes
      → (c' : Count) × (count_all c codes ≡ goes_on c') × (c'.presses ≡ c.presses + length codes)
  unfolding count_all count_press AllAre
  all-goes_on c [] p = (c, refl, omega arith)
  all-goes_on c (code ∷ codes) p =
      let same : (key == code) ≡ true = ground arith in
      let (c', done, count) = all-goes_on (counted v c) codes p.1 in
      (c', rw (same, count_all) done, omega (arith, count))

  pub batch-goes_on :
      (c c' : Count) (rs : List Reading)
      → count_batch k v key c rs ≡ goes_on c'
      → AllAre key (presses k rs) × (c'.presses ≡ c.presses + length (presses k rs))
  batch-goes_on c c' rs h =
      count_all-goes_on c c' (presses k rs) (sym (count_batch-count_all c rs) ∙ h)

  pub goes_on-batch :
      (c : Count) (rs : List Reading)
      → AllAre key (presses k rs)
      → (c' : Count) × (count_batch k v key c rs ≡ goes_on c')
        × (c'.presses ≡ c.presses + length (presses k rs))
  goes_on-batch c rs p =
      let (c', done, count) = all-goes_on c (presses k rs) p in
      (c', count_batch-count_all c rs ∙ done, count)
