-- ===== src/Safemode/Started.antt =====
-- The first loop of `detectSafemodeTrigger`, lines 225-257: the key with which the second begins.
use xposed.Prelude.{
  ◌==◌, Option-cases, take, drop, any, ℕ, suc, ◌<◌, ◌≡◌, refl, ◌≢◌, inl, inr, true, some, List, [],
  ◌∷◌, arith, is_positive, sym, ◌∙◌, false, none, if◌then◌else◌, Bool, not, some-injective,
  Bool-cases, ap, subst, ◌++◌, append-nil, zero,
}
use xposed.Safemode.Defs.{KeyCodes, physical_keycodes, Timespec, get_remaining_time}
use xposed.Safemode.Detect.{
  Reading, invalid_size, event, Round, pressed_code, initial_batch, leaves, ended, initial_wait,
  still_waiting,
}
use xposed.Safemode.Devices.{AllPositive}
use xposed.Safemode.Presses.{presses, all_presses, AllTimely, polled_presses}

-- The last of the presses, or the key that was held before.
abbrev pub last_or : ℕ → List ℕ → ℕ
last_or key [] = key
last_or key (x ∷ xs) = last_or x xs

-- The first loop goes on to the second with this key and the rounds that are left: either it is the
-- key that was held from the start, or, in time and with no press in the rounds before, it is the
-- last press of a round.
pub data StartedBy (k : KeyCodes) (expiration : Timespec) (held key : ℕ) (rounds rest : List Round)
    : Type 0 where
  from_start : held ≢ 0 → key ≡ held → rest ≡ rounds → StartedBy k expiration held key rounds rest
  pressed_later :
      (quiet : ℕ)
      → held ≡ 0
      → AllTimely expiration (take (suc quiet) rounds)
      → all_presses k (take quiet rounds) ≡ []
      → last_or 0 (all_presses k (take (suc quiet) rounds)) ≡ key
      → key ≢ 0
      → rest ≡ drop (suc quiet) rounds
      → StartedBy k expiration held key rounds rest

last_or-positive : (key : ℕ) (xs : List ℕ) → AllPositive xs → last_or key xs ≡ 0 → xs ≡ []
last_or-positive key [] p h = refl
last_or-positive key (x ∷ []) p h = absurd (omega (arith, h, p.0))
last_or-positive key (x ∷ y ∷ xs) p h =
    let e : y ∷ xs ≡ [] = last_or-positive x (y ∷ xs) p.1 h in absurd (cc e)

any-positive :
    (code : ℕ) (keys : List ℕ) → AllPositive keys → any (λ x. code == x) keys ≡ true → 0 < code
any-positive code [] p h = absurd (cc h)
any-positive code (x ∷ keys) p h = ground (arith, any-positive code keys p.1)

pub nonzero_test : (n : ℕ) → n ≢ 0 → (n == 0) ≡ false
nonzero_test n ne = elim (Bool-cases (n == 0)) [
  | inr other ↦ other
  | inl zero_key ↦ let e : n ≡ 0 = ground arith in absurd (ne e)
]

nil-parts : (xs ys : List ℕ) → xs ++ ys ≡ [] → (xs ≡ []) × (ys ≡ [])
nil-parts [] ys h = (refl, h)
nil-parts (x ∷ xs) ys h = absurd (cc h)

code_of :
    (a b c : Bool) (n code : ℕ)
    → (if a then none else if b then none else if c then some n else none) ≡ some code
    → (c ≡ true) × (n ≡ code)
code_of true b c n code h = absurd (cc h)
code_of false true c n code h = absurd (cc h)
code_of false false false n code h = absurd (cc h)
code_of false false true n code h = (refl, some-injective _ _ h)

module _ (k : KeyCodes) where
  initial_batch-last_or :
      (key : ℕ) (rs : List Reading) → initial_batch k key rs ≡ last_or key (presses k rs)
  unfolding initial_batch presses
  initial_batch-last_or key [] = refl
  initial_batch-last_or key (r ∷ rs) = elim (Option-cases (pressed_code k r)) [
    | inl nothing ↦ rw (nothing, initial_batch, presses) (initial_batch-last_or key rs)
    | inr (code, press) ↦ rw (press, initial_batch, presses) (initial_batch-last_or code rs)
  ]

  pressed_code-positive :
      (r : Reading) (code : ℕ)
      → AllPositive (physical_keycodes k)
      → pressed_code k r ≡ some code
      → 0 < code
  unfolding pressed_code
  pressed_code-positive invalid_size code p h = absurd (cc h)
  pressed_code-positive (event e) code p h =
      let (known, same) =
        code_of (not (e.type == k.ev_key)) (not (e.value == 1))
          (any (λ x. e.code == x) (physical_keycodes k)) e.code code h in
      omega (arith, any-positive e.code (physical_keycodes k) p known, same)

  presses-AllPositive :
      AllPositive (physical_keycodes k) → (rs : List Reading) → AllPositive (presses k rs)
  unfolding presses
  presses-AllPositive p [] = tt
  presses-AllPositive p (r ∷ rs) = elim (Option-cases (pressed_code k r)) [
    | inl nothing ↦ rw (nothing, presses) (presses-AllPositive p rs)
    | inr (code, press) ↦
        rw (press, presses) (pressed_code-positive r code p press, presses-AllPositive p rs)
  ]

  initial_batch-nothing :
      (rs : List Reading)
      → AllPositive (physical_keycodes k)
      → initial_batch k 0 rs ≡ 0
      → presses k rs ≡ []
  initial_batch-nothing rs p h =
      last_or-positive 0 (presses k rs) (presses-AllPositive p rs)
        (sym (initial_batch-last_or 0 rs) ∙ h)

  pub wait-over :
      (expiration : Timespec) (held : ℕ) (rounds : List Round)
      → (held == 0) ≡ false
      → initial_wait k expiration held rounds ≡ ended held rounds
  unfolding initial_wait
  wait-over expiration held [] h = rw (h, initial_wait)
  wait-over expiration held (r ∷ rs) h = rw (h, initial_wait)

  pub wait-late :
      (expiration : Timespec) (r : Round) (rs : List Round)
      → is_positive (get_remaining_time r.now expiration) ≡ false
      → initial_wait k expiration 0 (r ∷ rs) ≡ ended 0 rs
  unfolding initial_wait
  wait-late expiration r rs late = rw (late, initial_wait)

  pub wait-failed :
      (expiration : Timespec) (r : Round) (rs : List Round)
      → is_positive (get_remaining_time r.now expiration) ≡ true
      → r.polled ≡ none
      → initial_wait k expiration 0 (r ∷ rs) ≡ leaves 0
  unfolding initial_wait
  wait-failed expiration r rs timely failed = rw (timely, failed, initial_wait)

  pub wait-round :
      (expiration : Timespec) (r : Round) (rs : List Round) (readings : List Reading)
      → is_positive (get_remaining_time r.now expiration) ≡ true
      → r.polled ≡ some readings
      → initial_wait k expiration 0 (r ∷ rs)
        ≡ initial_wait k expiration (initial_batch k 0 readings) rs
  unfolding initial_wait
  wait-round expiration r rs readings timely polled = rw (timely, polled, initial_wait)

  now_or_later :
      (expiration : Timespec) (held key : ℕ) (r : Round) (rs rest : List Round)
      (readings : List Reading)
      → AllPositive (physical_keycodes k)
      → is_positive (get_remaining_time r.now expiration) ≡ true
      → r.polled ≡ some readings
      → StartedBy k expiration (initial_batch k 0 readings) key rs rest
      → StartedBy k expiration 0 key (r ∷ rs) rest
  unfolding AllTimely all_presses
  now_or_later expiration held key r rs rest readings p timely polled (from_start ne same left) =
      let here : polled_presses k r.polled ≡ presses k readings = ap (polled_presses k) polled in
      pressed_later 0 refl (timely, (readings, polled), tt) refl
        (ap (last_or 0) (append-nil (polled_presses k r.polled) ∙ here)
          ∙ sym (initial_batch-last_or 0 readings)
          ∙ sym same)
        (λ e. ne (sym same ∙ e)) left
  now_or_later expiration held key r rs rest readings p timely polled
        (pressed_later quiet nothing in_time silent final ne left) =
      let here : polled_presses k r.polled ≡ [] =
        ap (polled_presses k) polled ∙ initial_batch-nothing readings p nothing in
      pressed_later (suc quiet) refl (timely, (readings, polled), in_time)
        (ap (λ (xs : List ℕ). xs ++ all_presses k (take quiet rs)) here ∙ silent)
        (ap (λ (xs : List ℕ). last_or 0 (xs ++ all_presses k (take (suc quiet) rs))) here ∙ final)
        ne left

  wait-unfinished : (expiration : Timespec) → initial_wait k expiration 0 [] ≡ still_waiting
  unfolding initial_wait
  wait-unfinished expiration = refl

  at_once :
      (expiration : Timespec) (held key : ℕ) (rounds rest : List Round)
      → (held == 0) ≡ false
      → initial_wait k expiration held rounds ≡ ended key rest
      → StartedBy k expiration held key rounds rest
  at_once expiration held key rounds rest some_key h =
      let e : ended held rounds ≡ ended key rest =
        sym (wait-over expiration held rounds some_key) ∙ h in
      from_start (λ z. ground arith) (cc e) (cc e)

  pub ended-StartedBy :
      (expiration : Timespec) (held key : ℕ) (rounds rest : List Round)
      → AllPositive (physical_keycodes k)
      → initial_wait k expiration held rounds ≡ ended key rest
      → key ≢ 0
      → StartedBy k expiration held key rounds rest
  ended-StartedBy expiration held key [] rest p h ne = elim (Bool-cases (held == 0)) [
    | inr some_key ↦ at_once expiration held key [] rest some_key h
    | inl nothing ↦
        let e : held ≡ 0 = ground arith in
        let w : initial_wait k expiration 0 [] ≡ ended key rest =
          subst (λ (n : ℕ). initial_wait k expiration n [] ≡ ended key rest) e h in
        let c : still_waiting ≡ ended key rest = sym (wait-unfinished expiration) ∙ w in
        absurd (cc c)
  ]
  ended-StartedBy expiration held key (r ∷ rs) rest p h ne = elim (Bool-cases (held == 0)) [
    | inr some_key ↦ at_once expiration held key (r ∷ rs) rest some_key h
    | inl nothing ↦
        let e : held ≡ 0 = ground arith in
        let w : initial_wait k expiration 0 (r ∷ rs) ≡ ended key rest =
          subst (λ (n : ℕ). initial_wait k expiration n (r ∷ rs) ≡ ended key rest) e h in
        subst (λ (n : ℕ). StartedBy k expiration n key (r ∷ rs) rest) (sym e)
          (elim (Bool-cases (is_positive (get_remaining_time r.now expiration))) [
            | inr late ↦
                let c : ended 0 rs ≡ ended key rest = sym (wait-late expiration r rs late) ∙ w in
                let z : key ≡ 0 = cc c in absurd (ne z)
            | inl timely ↦ elim (Option-cases r.polled) [
              | inl failed ↦
                  let c : leaves 0 ≡ ended key rest =
                    sym (wait-failed expiration r rs timely failed) ∙ w in
                  absurd (cc c)
              | inr (readings, polled) ↦
                  now_or_later expiration held key r rs rest readings p timely polled (
                    ended-StartedBy expiration (initial_batch k 0 readings) key rs rest p
                      (sym (wait-round expiration r rs readings timely polled) ∙ w) ne)
            ]
          ])
  ]

  later-ended :
      (expiration : Timespec) (key : ℕ) (rounds : List Round) (quiet : ℕ)
      → AllTimely expiration (take (suc quiet) rounds)
      → all_presses k (take quiet rounds) ≡ []
      → last_or 0 (all_presses k (take (suc quiet) rounds)) ≡ key
      → key ≢ 0
      → initial_wait k expiration 0 rounds ≡ ended key (drop (suc quiet) rounds)
  unfolding AllTimely all_presses
  later-ended expiration key [] quiet in_time silent final ne = absurd (ne (sym final))
  later-ended expiration key (r ∷ rs) zero (timely, (readings, polled), _) silent final ne =
      let here : polled_presses k r.polled ++ [] ≡ presses k readings =
        append-nil (polled_presses k r.polled) ∙ ap (polled_presses k) polled in
      let e : initial_batch k 0 readings ≡ key =
        initial_batch-last_or 0 readings ∙ sym (ap (last_or 0) here) ∙ final in
      let some_key : (initial_batch k 0 readings == 0) ≡ false =
        nonzero_test _ (λ z. ne (sym e ∙ z)) in
      wait-round expiration r rs readings timely polled
      ∙ wait-over expiration (initial_batch k 0 readings) rs some_key
      ∙ ap (λ (n : ℕ). ended n rs) e
  later-ended expiration key (r ∷ rs) (suc quiet) (timely, (readings, polled), in_time) silent final
        ne =
      let (now, after) =
        nil-parts (polled_presses k r.polled) (all_presses k (take quiet rs)) silent in
      let nothing : presses k readings ≡ [] = sym (ap (polled_presses k) polled) ∙ now in
      let e : initial_batch k 0 readings ≡ 0 =
        initial_batch-last_or 0 readings ∙ ap (last_or 0) nothing in
      wait-round expiration r rs readings timely polled
      ∙ ap (λ (n : ℕ). initial_wait k expiration n rs) e
      ∙ later-ended expiration key rs quiet in_time after
          (sym (ap (λ (xs : List ℕ). last_or 0 (xs ++ all_presses k (take (suc quiet) rs))) now)
            ∙ final)
          ne

  pub StartedBy-ended :
      (expiration : Timespec) (held key : ℕ) (rounds rest : List Round)
      → StartedBy k expiration held key rounds rest
      → (initial_wait k expiration held rounds ≡ ended key rest) × (key ≢ 0)
  StartedBy-ended expiration held key rounds rest (from_start ne same left) = (
    wait-over expiration held rounds (nonzero_test held ne)
        ∙ ap (λ (n : ℕ). ended n rounds) (sym same)
        ∙ ap (ended key) (sym left),
    λ z. ne (sym same ∙ z),
  )
  StartedBy-ended expiration held key rounds rest
        (pressed_later quiet nothing in_time silent final ne left) =
      (
        ap (λ (n : ℕ). initial_wait k expiration n rounds) nothing
            ∙ later-ended expiration key rounds quiet in_time silent final ne
            ∙ ap (ended key) (sym left),
        ne,
      )
