-- ===== src/Safemode/Ended.antt =====
-- That `detectSafemodeTrigger` ends.
use xposed.Prelude.{
  ltb, ◌==◌, if◌then◌else◌, Bool-cases, Option-cases, is_positive, ℕ, suc, ◌≤◌, ◌≡◌, sym, ap, ◌∙◌,
  ◌≢◌, ◌⊎◌, inl, inr, Bool, true, false, not, ◌&&◌, List, [], ◌∷◌, arith, length, any, refl, subst,
  Option, none, some,
}
use xposed.Safemode.Counted.{Batch-cases}
use xposed.Safemode.Defs.{
  detection_presses, KeyCodes, Timespec, get_remaining_time, initial_delay, detection_timeout,
}
use xposed.Safemode.Detect.{
  Round, leaves, ended, still_waiting, Count, initial_batch, initial_wait, count_batch, detection,
  Loop, Setting, later_by, after_detection, after_wait, wait_for_keys, detect_safemode_trigger,
  Detected, with_closed, watch_devices,
}
use xposed.Safemode.Repeated.{
  detection-five, detection-late, detection-failed, detection-stops, detection-goes_on,
}
use xposed.Safemode.Started.{wait-over, wait-late, wait-failed, wait-round}
use xposed.Safemode.Trigger.{ℤ-cases, watched}

-- No time is left.
abbrev pub is_late : Timespec → Round → Bool
is_late expiration r = not (is_positive (get_remaining_time r.now expiration))

-- The rounds in which no time is left, for either loop.
unfoldable pub late_rounds : (first second : Timespec) → List Round → ℕ
late_rounds first second [] = 0
late_rounds first second (r ∷ rs) =
    let rest = late_rounds first second rs in
    if is_late first r && is_late second r then suc rest else rest

ended_not : {A : Type 0} {a : A} {rest : List Round} → ended a rest ≡ still_waiting → ⊥
ended_not h = cc h

leaves_not : {A : Type 0} {a : A} → leaves a ≡ still_waiting → ⊥
leaves_not h = cc h

module _ (k : KeyCodes) (first second : Timespec) where
  in_time-late_rounds :
      (r : Round) (rs : List Round)
      → (is_late first r && is_late second r) ≡ false
      → late_rounds first second (r ∷ rs) ≡ late_rounds first second rs
  unfolding late_rounds
  in_time-late_rounds r rs h = rw h

  late_rounds-suc :
      (r : Round) (rs : List Round)
      → late_rounds first second (r ∷ rs) ≤ suc (late_rounds first second rs)
  unfolding late_rounds
  late_rounds-suc r rs = elim (Bool-cases (is_late first r && is_late second r)) [
    | inl h ↦ rw h (omega arith)
    | inr h ↦ rw h (omega arith)
  ]

  first_in_time :
      (r : Round)
      → is_positive (get_remaining_time r.now first) ≡ true
      → (is_late first r && is_late second r) ≡ false
  first_in_time r h = rw h

  second_in_time :
      (r : Round)
      → is_positive (get_remaining_time r.now second) ≡ true
      → (is_late first r && is_late second r) ≡ false
  second_in_time r h = elim (Bool-cases (is_late first r)) [ inl e ↦ rw (e, h) | inr e ↦ rw e ]

  -- The second loop ends in a late round at the latest.
  detection-ends :
      (v : Bool) (key : ℕ) (c : Count) (rounds : List Round)
      → 1 ≤ late_rounds first second rounds
      → detection k v key second c rounds ≢ still_waiting
  unfolding late_rounds
  detection-ends v key c [] h = absurd (omega arith)
  detection-ends v key c (r ∷ rs) h = elim (Bool-cases (ltb c.presses detection_presses)) [
    | inr five ↦ λ e. ended_not (sym (detection-five k v key second c (r ∷ rs) five) ∙ e)
    | inl few ↦ elim (Bool-cases (is_positive (get_remaining_time r.now second))) [
      | inr late ↦ λ e. ended_not (sym (detection-late k v key second c r rs few late) ∙ e)
      | inl timely ↦
          let more : 1 ≤ late_rounds first second rs =
            omega (arith, in_time-late_rounds r rs (second_in_time r timely), h) in
          elim (Option-cases r.polled) [
            | inl failed ↦
                λ e. leaves_not (sym (detection-failed k v key second c r rs few timely failed) ∙ e)
            | inr (readings, polled) ↦ elim (Batch-cases (count_batch k v key c readings)) [
              | inl (c', stopped) ↦ λ e. leaves_not (
                  sym (detection-stops k v key second c c' r rs readings few timely polled stopped)
                  ∙ e)
              | inr (c', passed) ↦ λ e. detection-ends v key c' rs more (
                  sym (detection-goes_on k v key second c c' r rs readings few timely polled passed)
                  ∙ e)
            ]
          ]
    ]
  ]

  -- The first loop ends in a late round at the latest, and one is left for the second.
  wait-ends :
      (held : ℕ) (rounds : List Round)
      → 2 ≤ late_rounds first second rounds
      → ((key : ℕ) × (initial_wait k first held rounds ≡ leaves key))
        ⊎ ((key : ℕ) × (rest : List Round) × (initial_wait k first held rounds ≡ ended key rest)
            × (1 ≤ late_rounds first second rest))
  unfolding late_rounds
  wait-ends held [] h = absurd (omega arith)
  wait-ends held (r ∷ rs) h = elim (Bool-cases (held == 0)) [
    | inr some_key ↦ inr (held, r ∷ rs, wait-over k first held (r ∷ rs) some_key, omega (arith, h))
    | inl nothing ↦
        let none_held : held ≡ 0 = ground arith in
        let here = ap (λ (n : ℕ). initial_wait k first n (r ∷ rs)) none_held in
        elim (Bool-cases (is_positive (get_remaining_time r.now first))) [
          | inr late ↦
              inr
                (0, rs, here ∙ wait-late k first r rs late, omega (arith, late_rounds-suc r rs, h))
          | inl timely ↦ elim (Option-cases r.polled) [
            | inl failed ↦ inl (0, here ∙ wait-failed k first r rs timely failed)
            | inr (readings, polled) ↦
                let more : 2 ≤ late_rounds first second rs =
                  omega (arith, in_time-late_rounds r rs (first_in_time r timely), h) in
                let step = here ∙ wait-round k first r rs readings timely polled in
                elim (wait-ends (initial_batch k 0 readings) rs more) [
                  | inl (key, e) ↦ inl (key, step ∙ e)
                  | inr (key, rest, e, left) ↦ inr (key, rest, step ∙ e, left)
                ]
          ]
        ]
  ]

some_not {ℓ} : {A : Type ℓ} (a : A) → some a ≢ none
some_not a = λ e. cc e

module _ (k : KeyCodes) (s : Setting) where
  after_detection-ends :
      (efd : Option ℕ) (fds : List ℕ) (l : Loop Count)
      → l ≢ still_waiting
      → after_detection k s efd fds l ≢ none
  unfolding after_detection
  after_detection-ends efd fds still_waiting h = absurd (h refl)
  after_detection-ends efd fds (leaves c) h = some_not _
  after_detection-ends efd fds (ended c rest) h = some_not _

  after_wait-ends :
      (efd : Option ℕ) (fds : List ℕ) (key : ℕ) (rest : List Round)
      → 1
        ≤ late_rounds (later_by initial_delay s.started) (later_by detection_timeout s.noticed) rest
      → after_wait k s efd fds (ended key rest) ≢ none
  unfolding after_wait
  after_wait-ends efd fds key rest h = elim (Bool-cases (key == 0)) [
    | inl nothing ↦ rw nothing (some_not _)
    | inr some_key ↦ rw some_key (
        after_detection-ends efd fds _ (
          detection-ends k (later_by initial_delay s.started) (later_by detection_timeout s.noticed)
            s.vibrator key _ rest h))
  ]

  left-ends : (efd : Option ℕ) (fds : List ℕ) (key : ℕ) → after_wait k s efd fds (leaves key) ≢ none
  unfolding after_wait
  left-ends efd fds key = some_not _

  wait_for_keys-ends :
      (fds : List ℕ) (held : ℕ) (rounds : List Round)
      → 2
        ≤ late_rounds
            (later_by initial_delay s.started)
            (later_by detection_timeout s.noticed)
            rounds
      → wait_for_keys k s fds held rounds ≢ none
  unfolding wait_for_keys
  wait_for_keys-ends fds held rounds h = elim (Option-cases s.epoll) [
    | inl failed ↦ rw (failed, wait_for_keys) (some_not _)
    | inr (efd, created) ↦ elim (Bool-cases (any (λ fd. not (s.registers fd)) fds)) [
      | inl refused ↦ rw (created, refused, wait_for_keys) (some_not _)
      | inr registered ↦
          rw (created, registered, wait_for_keys)
            (elim (wait-ends k (later_by initial_delay s.started)
              (later_by detection_timeout s.noticed) held rounds h) [
                | inl (key, e) ↦
                    subst (λ (l : Loop ℕ). after_wait k s (some efd) fds l ≢ none) (sym e)
                      (left-ends (some efd) fds key)
                | inr (key, rest, e, late) ↦
                    subst (λ (l : Loop ℕ). after_wait k s (some efd) fds l ≢ none) (sym e)
                      (after_wait-ends (some efd) fds key rest late)
              ])
    ]
  ]

  watch_devices-ends :
      (skip : Bool) (rounds : List Round)
      → 2
        ≤ late_rounds
            (later_by initial_delay s.started)
            (later_by detection_timeout s.noticed)
            rounds
      → watch_devices k s (watched k s) skip rounds ≢ none
  unfolding watch_devices
  watch_devices-ends skip rounds h = elim (Bool-cases (length (watched k s).fds == 0)) [
    | inl nothing ↦ rw nothing (some_not _)
    | inr devices ↦ elim (ℤ-cases (watched k s).pressed_key) [
      | inr (several, e) ↦ rw (devices, e) (some_not _)
      | inl (held, e) ↦ elim (Bool-cases ((held == 0) && skip)) [
        | inl skipped ↦ rw (devices, e, skipped) (some_not _)
        | inr waits ↦ rw (devices, e, waits) (wait_for_keys-ends (watched k s).fds held rounds h)
      ]
    ]
  ]

  with_closed-ends : (fds : List ℕ) (o : Option Detected) → o ≢ none → with_closed fds o ≢ none
  unfolding with_closed
  with_closed-ends fds none h = absurd (h refl)
  with_closed-ends fds (some d) h = some_not _

  -- The detection ends, whatever is pressed and whatever else the system answers: once the clock was
  -- read twice when the time of both loops was over, it needs no further events.
  pub detect_safemode_trigger-ends :
      (skip_initial_delay : Bool) (rounds : List Round)
      → 2
        ≤ late_rounds
            (later_by initial_delay s.started)
            (later_by detection_timeout s.noticed)
            rounds
      → detect_safemode_trigger k s skip_initial_delay rounds ≢ none
  unfolding detect_safemode_trigger
  detect_safemode_trigger-ends skip rounds h =
      with_closed-ends (watched k s).closed _ (watch_devices-ends skip rounds h)
