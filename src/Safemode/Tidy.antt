-- ===== src/Safemode/Tidy.antt =====
-- How `detectSafemodeTrigger` ends.
use xposed.Prelude.{
  if◌then◌else◌, Bool-cases, ℕ, ◌≡◌, refl, inl, inr, Bool, true, List, [], ◌∷◌, ◌++◌, map, arith,
  ◌==◌, false, append-nil, Option-cases, ◌≤◌, leb, ltb-of_le, ◌∙◌, Option, none, some, any, not,
  length, ℤ, pos, negsuc, subst, ◌&&◌, ◌+◌, ap,
}
use xposed.Safemode.Answered.{IsAnswered, InLoop, detection-IsAnswered}
use xposed.Safemode.Defs.{
  detection_presses, vibration_short, KeyCodes, Effect, writes, closes, vibrate, vibrate_loop,
  vibration_long, detection_timeout, vibration_interval, initial_delay, max_devices,
  physical_keycodes, open_key_devices, opens_vibrator, closes_vibrator, Devices,
}
use xposed.Safemode.Detect.{
  Loop, leaves, ended, still_waiting, Count, Round, Setting, Detected, leave, after_detection,
  later_by, after_wait, wait_for_keys, initial_wait, detect_safemode_trigger, with_closed,
  watch_devices,
}
use xposed.Safemode.Effects.{
  closed_by, written, closed_by-append, written-append, closed_by-closes, written-closes, shorts,
  IsBalanced, append-IsBalanced, closes-IsBalanced,
}
use xposed.Safemode.Opened.{directory_fds, times, times-append, open_key_devices-times}

-- The epoll descriptor, if there is one.
abbrev pub opened_epoll : Option ℕ → List ℕ
opened_epoll none = []
opened_epoll (some fd) = fd ∷ []

-- Five short vibrations and a long one.
abbrev pub signal : (vibrator : Bool) → List ℕ
signal vibrator = if vibrator then shorts 5 ++ (vibration_long ∷ []) else []

-- These descriptors and the control file are closed, and safe mode was signalled.
record IsTidy (vibrator : Bool) (open_fds : List ℕ) (d : Detected) : Type 0 where
  closes_all : closed_by d.effects ≡ open_fds
  balanced : IsBalanced d.effects
  signals : d.result ≡ true → written d.effects ≡ signal vibrator

Ends : (Detected → Type 0) → Option Detected → Type 0
Ends P none = Unit
Ends P (some d) = P d

closed_by-leave :
    (efd : Option ℕ) (fds : List ℕ) (es : List Effect) (b : Bool)
    → closed_by es ≡ []
    → closed_by (leave efd fds es b).effects ≡ opened_epoll efd ++ fds
unfolding leave
closed_by-leave none fds es b h = rw (closed_by-append es (map closes fds), h, closed_by-closes fds)
closed_by-leave (some fd) fds es b h =
    rw (closed_by-append es (closes fd ∷ map closes fds), h, closed_by-closes fds)

written-leave :
    (efd : Option ℕ) (fds : List ℕ) (es : List Effect) (b : Bool)
    → written (leave efd fds es b).effects ≡ written es
unfolding leave
written-leave none fds es b =
    rw (written-append es (map closes fds), written-closes fds, append-nil (written es))
written-leave (some fd) fds es b =
    rw (written-append es (closes fd ∷ map closes fds), written-closes fds, append-nil (written es))

leave-IsBalanced :
    (efd : Option ℕ) (fds : List ℕ) (es : List Effect) (b : Bool)
    → IsBalanced es
    → IsBalanced (leave efd fds es b).effects
unfolding leave
leave-IsBalanced none fds es b h = append-IsBalanced es (map closes fds) h (closes-IsBalanced fds)
leave-IsBalanced (some fd) fds es b h =
    append-IsBalanced es (closes fd ∷ map closes fds) h (closes-IsBalanced fds)

leave-IsTidy :
    (v : Bool) (efd : Option ℕ) (fds : List ℕ) (es : List Effect)
    → closed_by es ≡ []
    → IsBalanced es
    → IsTidy v (opened_epoll efd ++ fds) (leave efd fds es false)
unfolding leave
leave-IsTidy v efd fds es h k = record {
  closes_all = closed_by-leave efd fds es false h;
  balanced = leave-IsBalanced efd fds es false k;
  signals = λ p. cc;
}

-- The long vibration.
abbrev long_effects : List Effect
long_effects = opens_vibrator ∷ writes vibration_long ∷ closes_vibrator ∷ []

triggered-IsTidy :
    (v : Bool) (efd : Option ℕ) (fds : List ℕ) (c : Count)
    → 5 ≤ c.presses
    → IsAnswered v c
    → IsTidy v
        (opened_epoll efd ++ fds)
        (leave efd fds (c.effects ++ vibrate v 1 vibration_long 0) true)
unfolding vibrate vibrate_loop
triggered-IsTidy true efd fds c h a = record {
  closes_all =
      closed_by-leave efd fds _ true (rw (closed_by-append c.effects long_effects, a.open_still));
  balanced =
      leave-IsBalanced efd fds _ true (append-IsBalanced c.effects long_effects a.balanced refl);
  signals = λ p.
      written-leave efd fds _ true
      ∙ rw (written-append c.effects long_effects, a.heard_all, ltb-of_le c.presses 5 h);
}
triggered-IsTidy false efd fds c h a = record {
  closes_all = closed_by-leave efd fds _ true (rw (append-nil c.effects) a.open_still);
  balanced = leave-IsBalanced efd fds _ true (rw (append-nil c.effects) a.balanced);
  signals = λ p. written-leave efd fds _ true ∙ rw (append-nil c.effects) a.heard_all;
}

first-IsAnswered :
    (v : Bool)
    → IsAnswered v
        (record { presses = 1; effects = vibrate v 2 vibration_short vibration_interval })
unfolding vibrate vibrate_loop
first-IsAnswered true = record { open_still = refl; heard_all = refl; balanced = refl }
first-IsAnswered false = record { open_still = refl; heard_all = refl; balanced = refl }

module _ (k : KeyCodes) (s : Setting) (fds : List ℕ) where
  after_detection-IsTidy :
      (efd : Option ℕ) (l : Loop Count)
      → InLoop (IsAnswered s.vibrator) l
      → Ends (IsTidy s.vibrator (opened_epoll efd ++ fds)) (after_detection k s efd fds l)
  unfolding after_detection InLoop Ends
  after_detection-IsTidy efd still_waiting h = tt
  after_detection-IsTidy efd (leaves c) h =
      leave-IsTidy s.vibrator efd fds c.effects h.open_still h.balanced
  after_detection-IsTidy efd (ended c rest) h =
      elim (Bool-cases (leb detection_presses c.presses)) [
        | inl five ↦ rw five (triggered-IsTidy s.vibrator efd fds c (ground arith) h)
        | inr fewer ↦ rw fewer (leave-IsTidy s.vibrator efd fds c.effects h.open_still h.balanced)
      ]

  after_wait-IsTidy :
      (efd : Option ℕ) (l : Loop ℕ)
      → Ends (IsTidy s.vibrator (opened_epoll efd ++ fds)) (after_wait k s efd fds l)
  unfolding after_wait Ends vibrate vibrate_loop
  after_wait-IsTidy efd still_waiting = tt
  after_wait-IsTidy efd (leaves pressed) = leave-IsTidy s.vibrator efd fds [] refl refl
  after_wait-IsTidy efd (ended pressed rounds) = elim (Bool-cases (pressed == 0)) [
    | inl nothing ↦ rw nothing (leave-IsTidy s.vibrator efd fds [] refl refl)
    | inr something ↦ rw something (
        after_detection-IsTidy efd _ (
          detection-IsAnswered k s.vibrator pressed (later_by detection_timeout s.noticed) _ rounds
            (first-IsAnswered s.vibrator)))
  ]

  wait_for_keys-IsTidy :
      (pressed : ℕ) (rounds : List Round)
      → Ends
          (IsTidy s.vibrator (opened_epoll s.epoll ++ fds))
          (wait_for_keys k s fds pressed rounds)
  unfolding wait_for_keys Ends
  wait_for_keys-IsTidy pressed rounds = elim (Option-cases s.epoll) [
    | inl failed ↦ rw (failed, wait_for_keys) (leave-IsTidy s.vibrator none fds [] refl refl)
    | inr (efd, created) ↦ elim (Bool-cases (any (λ fd. not (s.registers fd)) fds)) [
      | inl refused ↦
          rw (created, refused, wait_for_keys) (leave-IsTidy s.vibrator (some efd) fds [] refl refl)
      | inr registered ↦
          rw (created, registered, wait_for_keys)
            (after_wait-IsTidy (some efd)
              (initial_wait k (later_by initial_delay s.started) pressed rounds))
    ]
  ]

-- Whether the code gets as far as waiting for events.
pub waits_for_keys : List ℕ → ℤ → (skip_initial_delay : Bool) → Bool
waits_for_keys fds (negsuc n) skip_initial_delay = false
waits_for_keys fds (pos pressed) skip_initial_delay =
    not (length fds == 0) && not ((pressed == 0) && skip_initial_delay)

-- The epoll descriptor, if it is created.
pub created_epoll : KeyCodes → Setting → (skip_initial_delay : Bool) → Option ℕ
created_epoll k s skip_initial_delay =
    let d = open_key_devices (physical_keycodes k) s.directory max_devices in
    if waits_for_keys d.fds d.pressed_key skip_initial_delay then s.epoll else none

watch_devices-IsTidy :
    (k : KeyCodes) (s : Setting) (d : Devices) (skip : Bool) (rounds : List Round)
    → Ends
        (IsTidy s.vibrator (
          opened_epoll (if waits_for_keys d.fds d.pressed_key skip then s.epoll else none)
          ++ d.fds))
        (watch_devices k s d skip rounds)
unfolding watch_devices waits_for_keys Ends
watch_devices-IsTidy k s d skip rounds = go d.fds d.pressed_key
  where
    go :
        (fds : List ℕ) (pressed_key : ℤ)
        → Ends
            (IsTidy s.vibrator
              (opened_epoll (if waits_for_keys fds pressed_key skip then s.epoll else none) ++ fds))
            (if length fds == 0 then some (leave none fds [] false) else elim pressed_key [
              | negsuc n ↦ some (leave none fds [] false)
              | pos pressed ↦
                  if pressed == 0 && skip
                  then some (leave none fds [] false)
                  else wait_for_keys k s fds pressed rounds
            ])
    go fds (negsuc n) = elim (Bool-cases (length fds == 0)) [
      | inl e ↦ rw e (leave-IsTidy s.vibrator none fds [] refl refl)
      | inr e ↦ rw e (leave-IsTidy s.vibrator none fds [] refl refl)
    ]
    go fds (pos pressed) = elim (Bool-cases (length fds == 0)) [
      | inl e ↦ rw e (leave-IsTidy s.vibrator none fds [] refl refl)
      | inr e ↦ elim (Bool-cases ((pressed == 0) && skip)) [
        | inl q ↦ rw (e, q) (leave-IsTidy s.vibrator none fds [] refl refl)
        | inr q ↦ rw (e, q) (wait_for_keys-IsTidy k s fds pressed rounds)
      ]
    ]

with_closed-IsTidy :
    (v : Bool) (closed open_fds : List ℕ) (o : Option Detected)
    → Ends (IsTidy v open_fds) o
    → Ends (IsTidy v (closed ++ open_fds)) (with_closed closed o)
unfolding with_closed Ends
with_closed-IsTidy v closed open_fds none h = tt
with_closed-IsTidy v closed open_fds (some d) h = record {
  closes_all =
      rw (closed_by-append (map closes closed) d.effects, closed_by-closes closed, h.closes_all);
  balanced = append-IsBalanced (map closes closed) d.effects (closes-IsBalanced closed) h.balanced;
  signals =
      λ p. rw (written-append (map closes closed) d.effects, written-closes closed, h.signals p);
}

detect_safemode_trigger-IsTidy :
    (k : KeyCodes) (s : Setting) (skip : Bool) (rounds : List Round)
    → let d = open_key_devices (physical_keycodes k) s.directory max_devices in
      Ends
        (IsTidy s.vibrator (d.closed ++ (opened_epoll (created_epoll k s skip) ++ d.fds)))
        (detect_safemode_trigger k s skip rounds)
unfolding detect_safemode_trigger created_epoll
detect_safemode_trigger-IsTidy k s skip rounds =
    let d = open_key_devices (physical_keycodes k) s.directory max_devices in
    with_closed-IsTidy s.vibrator d.closed _ (watch_devices k s d skip rounds)
      (watch_devices-IsTidy k s d skip rounds)

-- On every path on which the detection ends, each device that it opened, also one without a relevant
-- key, and the epoll descriptor, if it was created, has been closed as often as it was opened, and
-- nothing else of this kind; and so has the vibrator's control file.
pub detect_safemode_trigger-closes :
    (k : KeyCodes) (s : Setting) (skip_initial_delay : Bool) (rounds : List Round) (d : Detected)
    → detect_safemode_trigger k s skip_initial_delay rounds ≡ some d
    → ((fd : ℕ)
        → times fd (closed_by d.effects)
          ≡ times fd (opened_epoll (created_epoll k s skip_initial_delay))
            + times fd (directory_fds (physical_keycodes k) max_devices s.directory))
      × IsBalanced d.effects
unfolding Ends
detect_safemode_trigger-closes k s skip_initial_delay rounds d h =
    let tidy = subst (Ends _) h (detect_safemode_trigger-IsTidy k s skip_initial_delay rounds) in
    let ds = open_key_devices (physical_keycodes k) s.directory max_devices in
    let efds = opened_epoll (created_epoll k s skip_initial_delay) in
    (
      λ fd. omega (
        arith,
        ap (times fd) tidy.closes_all,
        times-append fd ds.closed (efds ++ ds.fds),
        times-append fd efds ds.fds,
        open_key_devices-times (physical_keycodes k) fd max_devices s.directory,
      ),
      tidy.balanced,
    )

-- Where safe mode is triggered, the code has written exactly five short vibrations and then a long one
-- to the vibrator, however many presses were read, or nothing if its control file cannot be opened.
pub detect_safemode_trigger-signal :
    (k : KeyCodes) (s : Setting) (skip_initial_delay : Bool) (rounds : List Round) (d : Detected)
    → detect_safemode_trigger k s skip_initial_delay rounds ≡ some d
    → d.result ≡ true
    → written d.effects ≡ signal s.vibrator
unfolding Ends
detect_safemode_trigger-signal k s skip_initial_delay rounds d h t =
    let tidy = subst (Ends _) h (detect_safemode_trigger-IsTidy k s skip_initial_delay rounds) in
    tidy.signals t
