-- ===== src/Safemode/Answered.antt =====
-- Each press that `detectSafemodeTrigger` counts is answered by vibrations.
use xposed.Prelude.{
  ltb, if◌then◌else◌, Bool-cases, ℕ, suc, ◌+◌, ◌≡◌, inl, inr, Bool, true, List, [], ◌∷◌, ◌++◌,
  arith, ◌==◌, false, append-nil, ltb→lt, ltb→le, Option-cases, is_positive, ◌≤◌, refl,
}
use xposed.Safemode.Defs.{
  detection_presses, vibration_short, KeyCodes, writes, vibrate, vibrate_loop, Timespec,
  get_remaining_time, Effect, opens_vibrator, closes_vibrator,
}
use xposed.Safemode.Detect.{
  Loop, leaves, ended, still_waiting, Count, Batch, goes_on, stops, count_press, Reading, Round,
  pressed_code, count_batch, detection,
}
use xposed.Safemode.Effects.{
  closed_by, written, closed_by-append, written-append, shorts, shorts-snoc, heard, IsBalanced,
  append-IsBalanced,
}

-- No device is closed yet, each press was answered, and the control file is closed.
pub record IsAnswered (vibrator : Bool) (c : Count) : Type 0 where
  pub open_still : closed_by c.effects ≡ []
  pub heard_all : written c.effects ≡ heard vibrator c.presses
  pub balanced : IsBalanced c.effects

InBatch : (Count → Type 0) → Batch → Type 0
InBatch P (goes_on c) = P c
InBatch P (stops c) = P c

unfoldable pub InLoop : (Count → Type 0) → Loop Count → Type 0
InLoop P (leaves c) = P c
InLoop P (ended c rounds) = P c
InLoop P still_waiting = Unit

heard-last : (p : ℕ) → 4 ≤ p → (if ltb p 5 then shorts (suc p) else shorts 5) ≡ shorts 5
heard-last p h = elim (Bool-cases (ltb p 5)) [
  | inl less ↦ let four : p ≡ 4 = omega (arith, ltb→lt p 5 less) in rw four
  | inr more ↦ rw more
]

-- One short vibration.
abbrev short_effects : List Effect
short_effects = opens_vibrator ∷ writes vibration_short ∷ closes_vibrator ∷ []

press-IsAnswered :
    (vibrator : Bool) (c : Count)
    → IsAnswered vibrator c
    → IsAnswered vibrator (record {
      presses = c.presses + 1;
      effects =
          if ltb (c.presses + 1) detection_presses
          then c.effects ++ vibrate vibrator 1 vibration_short 0
          else c.effects;
    })
unfolding vibrate vibrate_loop
press-IsAnswered true c h =
    let next : c.presses + 1 ≡ suc c.presses = omega arith in
    elim (Bool-cases (ltb (c.presses + 1) detection_presses)) [
      | inl more ↦
          let fewer : ltb c.presses 5 ≡ true = ground arith in
          record {
            open_still = rw (more, closed_by-append c.effects short_effects, h.open_still);
            heard_all =
                rw (more, written-append c.effects short_effects, h.heard_all, fewer, next)
                  (shorts-snoc (suc c.presses));
            balanced = rw more (append-IsBalanced c.effects short_effects h.balanced refl);
          }
      | inr enough ↦ record {
        open_still = rw enough h.open_still;
        heard_all =
            rw (enough, h.heard_all)
              (heard-last c.presses (omega (arith, ltb→le (c.presses + 1) 5 enough)));
        balanced = rw enough h.balanced;
      }
    ]
press-IsAnswered false c h = elim (Bool-cases (ltb (c.presses + 1) detection_presses)) [
  | inl more ↦ record {
    open_still = rw (more, append-nil c.effects) h.open_still;
    heard_all = rw (more, append-nil c.effects) h.heard_all;
    balanced = rw (more, append-nil c.effects) h.balanced;
  }
  | inr enough ↦ record {
    open_still = rw enough h.open_still;
    heard_all = rw enough h.heard_all;
    balanced = rw enough h.balanced;
  }
]

module _ (k : KeyCodes) (vibrator : Bool) (key : ℕ) where
  count_press-IsAnswered :
      (code : ℕ) (c : Count)
      → IsAnswered vibrator c
      → InBatch (IsAnswered vibrator) (count_press k vibrator key code c)
  unfolding count_press InBatch
  count_press-IsAnswered code c h = elim (Bool-cases (key == code)) [
    | inl same ↦ rw same (press-IsAnswered vibrator c h)
    | inr other ↦ rw other h
  ]

  -- A batch, and what is done with the count after it.
  then-IsAnswered :
      (go : Count → Batch)
      → ((c : Count) → IsAnswered vibrator c → InBatch (IsAnswered vibrator) (go c))
      → (b : Batch) → InBatch (IsAnswered vibrator) b
      → InBatch (IsAnswered vibrator) (elim b [ stops c' ↦ stops c' | goes_on c' ↦ go c' ])
  unfolding InBatch
  then-IsAnswered go next (stops c) h = h
  then-IsAnswered go next (goes_on c) h = next c h

  count_batch-IsAnswered :
      (c : Count) (rs : List Reading)
      → IsAnswered vibrator c
      → InBatch (IsAnswered vibrator) (count_batch k vibrator key c rs)
  unfolding count_batch InBatch
  count_batch-IsAnswered c [] h = h
  count_batch-IsAnswered c (r ∷ rs) h = elim (Option-cases (pressed_code k r)) [
    | inl absent ↦ rw (absent, count_batch) (count_batch-IsAnswered c rs h)
    | inr (code, is_press) ↦
        rw (is_press, count_batch)
          (then-IsAnswered (λ c'. count_batch k vibrator key c' rs)
            (λ c' h'. count_batch-IsAnswered c' rs h') (count_press k vibrator key code c)
            (count_press-IsAnswered code c h))
  ]

  round-IsAnswered :
      (go : Count → Loop Count)
      → ((c : Count) → IsAnswered vibrator c → InLoop (IsAnswered vibrator) (go c))
      → (b : Batch) → InBatch (IsAnswered vibrator) b
      → InLoop (IsAnswered vibrator) (elim b [ stops c' ↦ leaves c' | goes_on c' ↦ go c' ])
  unfolding InBatch InLoop
  round-IsAnswered go next (stops c) h = h
  round-IsAnswered go next (goes_on c) h = next c h

  pub detection-IsAnswered :
      (expiration : Timespec) (c : Count) (rounds : List Round)
      → IsAnswered vibrator c
      → InLoop (IsAnswered vibrator) (detection k vibrator key expiration c rounds)
  unfolding detection InLoop
  detection-IsAnswered expiration c [] h = elim (Bool-cases (ltb c.presses detection_presses)) [
    | inl b ↦ rw b tt
    | inr b ↦ rw b h
  ]
  detection-IsAnswered expiration c (r ∷ rs) h =
      elim (Bool-cases (ltb c.presses detection_presses)) [
        | inr b ↦ rw (b, detection) h
        | inl b ↦ elim (Bool-cases (is_positive (get_remaining_time r.now expiration))) [
          | inr t ↦ rw (b, t, detection) h
          | inl t ↦ elim (Option-cases r.polled) [
            | inl failed ↦ rw (b, t, failed, detection) h
            | inr (readings, got) ↦
                rw (b, t, got, detection)
                  (round-IsAnswered (λ c'. detection k vibrator key expiration c' rs)
                    (λ c' h'. detection-IsAnswered expiration c' rs h')
                    (count_batch k vibrator key c readings) (count_batch-IsAnswered c readings h))
          ]
        ]
      ]
