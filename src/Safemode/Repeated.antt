-- ===== src/Safemode/Repeated.antt =====
-- When the detection, lines 276-315, ends with five presses.
use xposed.Prelude.{
  ltb, leb, Bool-cases, Option-cases, length, take, length-append, take-nil, is_positive, ℕ, zero,
  suc, ◌+◌, ◌≤◌, ◌≡◌, sym, ap, subst, ◌∙◌, inl, inr, Bool, true, false, none, some, List, [], ◌∷◌,
  ◌++◌, arith,
}
use xposed.Safemode.Counted.{Batch-cases, batch-goes_on, goes_on-batch}
use xposed.Safemode.Defs.{detection_presses, KeyCodes, Timespec, get_remaining_time}
use xposed.Safemode.Detect.{
  Reading, Round, Loop, leaves, ended, still_waiting, Count, goes_on, stops, count_batch, detection,
}
use xposed.Safemode.Presses.{
  presses, polled_presses, all_presses, AllAre, AllTimely, Repeated, AllAre-append, AllAre-parts,
}

-- The loop ends with at least five presses.
unfoldable pub triggers : Loop Count → Bool
triggers still_waiting = false
triggers (leaves c) = false
triggers (ended c rest) = leb detection_presses c.presses

module _ (k : KeyCodes) (v : Bool) (key : ℕ) where
  no_round :
      (expiration : Timespec) (c : Count) (rounds : List Round)
      → 5 ≤ c.presses
      → Repeated k key expiration c.presses rounds
  unfolding AllTimely AllAre all_presses
  no_round expiration c rounds h = record {
    used = 0;
    timely = tt;
    same_key = tt;
    enough = omega arith;
  }

  one_round :
      (expiration : Timespec) (c c' : Count) (r : Round) (rs : List Round) (readings : List Reading)
      → is_positive (get_remaining_time r.now expiration) ≡ true
      → r.polled ≡ some readings
      → AllAre key (presses k readings)
      → c'.presses ≡ c.presses + length (presses k readings)
      → Repeated k key expiration c'.presses rs
      → Repeated k key expiration c.presses (r ∷ rs)
  unfolding AllTimely all_presses
  one_round expiration c c' r rs readings timely polled same count rest =
      let here : polled_presses k r.polled ≡ presses k readings = ap (polled_presses k) polled in
      record {
        used = suc rest.used;
        timely = (timely, (readings, polled), rest.timely);
        same_key =
            subst (λ (xs : List ℕ). AllAre key (xs ++ all_presses k (take rest.used rs))) (sym here)
              (AllAre-append key _ _ same rest.same_key);
        enough = omega (
          arith,
          rest.enough,
          count,
          ap length here,
          length-append (polled_presses k r.polled) (all_presses k (take rest.used rs)),
        );
      }

  detection-waiting :
      (expiration : Timespec) (c : Count)
      → ltb c.presses detection_presses ≡ true
      → detection k v key expiration c [] ≡ still_waiting
  unfolding detection
  detection-waiting expiration c few = rw (few, detection)

  pub detection-five :
      (expiration : Timespec) (c : Count) (rounds : List Round)
      → ltb c.presses detection_presses ≡ false
      → detection k v key expiration c rounds ≡ ended c rounds
  unfolding detection
  detection-five expiration c [] five = rw (five, detection)
  detection-five expiration c (r ∷ rs) five = rw (five, detection)

  pub detection-late :
      (expiration : Timespec) (c : Count) (r : Round) (rs : List Round)
      → ltb c.presses detection_presses ≡ true
      → is_positive (get_remaining_time r.now expiration) ≡ false
      → detection k v key expiration c (r ∷ rs) ≡ ended c rs
  unfolding detection
  detection-late expiration c r rs few late = rw (few, late, detection)

  pub detection-failed :
      (expiration : Timespec) (c : Count) (r : Round) (rs : List Round)
      → ltb c.presses detection_presses ≡ true
      → is_positive (get_remaining_time r.now expiration) ≡ true
      → r.polled ≡ none
      → detection k v key expiration c (r ∷ rs) ≡ leaves c
  unfolding detection
  detection-failed expiration c r rs few timely failed = rw (few, timely, failed, detection)

  pub detection-stops :
      (expiration : Timespec) (c c' : Count) (r : Round) (rs : List Round) (readings : List Reading)
      → ltb c.presses detection_presses ≡ true
      → is_positive (get_remaining_time r.now expiration) ≡ true
      → r.polled ≡ some readings
      → count_batch k v key c readings ≡ stops c'
      → detection k v key expiration c (r ∷ rs) ≡ leaves c'
  unfolding detection
  detection-stops expiration c c' r rs readings few timely polled h =
      rw (few, timely, polled, detection, h)

  pub detection-goes_on :
      (expiration : Timespec) (c c' : Count) (r : Round) (rs : List Round) (readings : List Reading)
      → ltb c.presses detection_presses ≡ true
      → is_positive (get_remaining_time r.now expiration) ≡ true
      → r.polled ≡ some readings
      → count_batch k v key c readings ≡ goes_on c'
      → detection k v key expiration c (r ∷ rs) ≡ detection k v key expiration c' rs
  unfolding detection
  detection-goes_on expiration c c' r rs readings few timely polled h =
      rw (few, timely, polled, detection, h)

  pub detection-Repeated :
      (expiration : Timespec) (c : Count) (rounds : List Round)
      → triggers (detection k v key expiration c rounds) ≡ true
      → Repeated k key expiration c.presses rounds
  unfolding triggers
  detection-Repeated expiration c [] h = elim (Bool-cases (ltb c.presses detection_presses)) [
    | inl few ↦ let e : false ≡ true = rw (detection-waiting expiration c few) at h in absurd (cc e)
    | inr five ↦ no_round expiration c [] (ground arith)
  ]
  detection-Repeated expiration c (r ∷ rs) h = elim (Bool-cases (ltb c.presses detection_presses)) [
    | inr five ↦ no_round expiration c (r ∷ rs) (ground arith)
    | inl few ↦ elim (Bool-cases (is_positive (get_remaining_time r.now expiration))) [
      | inr late ↦
          let e : leb detection_presses c.presses ≡ true =
            rw (detection-late expiration c r rs few late) at h in
          no_round expiration c (r ∷ rs) (ground arith)
      | inl timely ↦ elim (Option-cases r.polled) [
        | inl failed ↦
            let e : false ≡ true = rw (detection-failed expiration c r rs few timely failed) at h in
            absurd (cc e)
        | inr (readings, polled) ↦ elim (Batch-cases (count_batch k v key c readings)) [
          | inl (c', stopped) ↦
              let e : false ≡ true =
                rw (detection-stops expiration c c' r rs readings few timely polled stopped) at h in
              absurd (cc e)
          | inr (c', done) ↦
              let (same, count) = batch-goes_on k v key c c' readings done in
              one_round expiration c c' r rs readings timely polled same count (
                detection-Repeated expiration c' rs (
                  rw (detection-goes_on expiration c c' r rs readings few timely polled done) at h))
        ]
      ]
    ]
  ]

  five-triggers :
      (expiration : Timespec) (c : Count) (rounds : List Round)
      → 5 ≤ c.presses
      → triggers (detection k v key expiration c rounds) ≡ true
  unfolding triggers
  five-triggers expiration c rounds h =
      let five : ltb c.presses detection_presses ≡ false = ground arith in
      rw (detection-five expiration c rounds five) (ground arith)

  pub Repeated-detection :
      (expiration : Timespec) (c : Count) (rounds : List Round) (used : ℕ)
      → AllTimely expiration (take used rounds)
      → AllAre key (all_presses k (take used rounds))
      → 5 ≤ c.presses + length (all_presses k (take used rounds))
      → triggers (detection k v key expiration c rounds) ≡ true
  unfolding AllTimely all_presses
  Repeated-detection expiration c [] used timely same enough =
      five-triggers expiration c []
        (omega (arith, ap (λ (rs : List Round). length (all_presses k rs)) (take-nil used)))
  Repeated-detection expiration c (r ∷ rs) zero timely same enough =
      five-triggers expiration c (r ∷ rs) (omega arith)
  Repeated-detection expiration c (r ∷ rs) (suc used) (timely, (readings, polled), in_time) same
        enough =
      elim (Bool-cases (ltb c.presses detection_presses)) [
        | inr five ↦ five-triggers expiration c (r ∷ rs) (ground arith)
        | inl few ↦
            let here : polled_presses k r.polled ≡ presses k readings =
              ap (polled_presses k) polled in
            let (now, rest) =
              AllAre-parts key (polled_presses k r.polled) (all_presses k (take used rs)) same in
            let (c', done, count) =
              goes_on-batch k v key c readings (subst (λ (xs : List ℕ). AllAre key xs) here now) in
            ap triggers (detection-goes_on expiration c c' r rs readings few timely polled done)
            ∙ Repeated-detection expiration c' rs used in_time rest (
                omega (
                  arith,
                  enough,
                  count,
                  ap length here,
                  length-append (polled_presses k r.polled) (all_presses k (take used rs)),
                ))
      ]
