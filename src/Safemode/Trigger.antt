-- ===== src/Safemode/Trigger.antt =====
-- When `detectSafemodeTrigger` reports a trigger.
use xposed.Prelude.{
  leb, ◌==◌, Bool-cases, length, any, pos, ℕ, ◌≡◌, refl, sym, ◌∙◌, ◌≢◌, inl, inr, Bool, true, false,
  not, Option, none, some, List, arith, Option-cases, ◌↔◌, ℤ, negsuc, ◌⊎◌, ◌&&◌,
}
use xposed.Safemode.Defs.{
  initial_delay, detection_timeout, detection_presses, vibration_short, vibration_interval,
  max_devices, KeyCodes, physical_keycodes, vibrate, Devices, open_key_devices,
}
use xposed.Safemode.Detect.{
  Round, Loop, leaves, ended, still_waiting, Count, Setting, later_by, detection, Detected, leave,
  after_detection, after_wait, initial_wait, wait_for_keys, detect_safemode_trigger, with_closed,
  watch_devices,
}
use xposed.Safemode.Devices.{AllPositive}
use xposed.Safemode.Presses.{Repeated}
use xposed.Safemode.Repeated.{triggers, detection-Repeated, Repeated-detection}
use xposed.Safemode.Started.{nonzero_test, StartedBy, ended-StartedBy, StartedBy-ended}

pub ℤ-cases : (z : ℤ) → ((n : ℕ) × (z ≡ pos n)) ⊎ ((n : ℕ) × (z ≡ negsuc n))
ℤ-cases (pos n) = inl (n, refl)
ℤ-cases (negsuc n) = inr (n, refl)

-- The result is true.
unfoldable pub is_triggered : Option Detected → Bool
is_triggered none = false
is_triggered (some d) = d.result

with_closed-triggered :
    (fds : List ℕ) (o : Option Detected) → is_triggered (with_closed fds o) ≡ is_triggered o
unfolding with_closed is_triggered
with_closed-triggered fds none = refl
with_closed-triggered fds (some d) = refl

-- The devices that are opened, and the key that is held.
abbrev pub watched : KeyCodes → Setting → Devices
watched k s = open_key_devices (physical_keycodes k) s.directory max_devices

-- The devices can be watched, at most one key is held, the initial delay is not skipped unless one
-- is, and a key is pressed five times in time, with no other in between.
pub record Triggered (k : KeyCodes) (s : Setting) (skip_initial_delay : Bool) (rounds : List Round)
    : Type 0 where
  pub held : ℕ
  pub efd : ℕ
  pub key : ℕ
  pub rest : List Round
  pub some_device : length (watched k s).fds ≢ 0
  pub held_key : (watched k s).pressed_key ≡ pos held
  pub not_skipped : held ≡ 0 → skip_initial_delay ≡ false
  pub created : s.epoll ≡ some efd
  pub registered : any (λ fd. not (s.registers fd)) (watched k s).fds ≡ false
  pub started : StartedBy k (later_by initial_delay s.started) held key rounds rest
  pub repeated : Repeated k key (later_by detection_timeout s.noticed) 1 rest

module _ (k : KeyCodes) (s : Setting) where
  after_detection-triggers :
      (efd : Option ℕ) (fds : List ℕ) (l : Loop Count)
      → is_triggered (after_detection k s efd fds l) ≡ triggers l
  unfolding is_triggered triggers after_detection leave
  after_detection-triggers efd fds still_waiting = refl
  after_detection-triggers efd fds (leaves c) = refl
  after_detection-triggers efd fds (ended c rest) =
      elim (Bool-cases (leb detection_presses c.presses)) [ inl h ↦ rw h | inr h ↦ rw h ]

  -- The count with which the second loop begins.
  abbrev first : Count
  first = record { presses = 1; effects = vibrate s.vibrator 2 vibration_short vibration_interval }

  after_wait-key :
      (efd : Option ℕ) (fds : List ℕ) (l : Loop ℕ)
      → is_triggered (after_wait k s efd fds l) ≡ true
      → (key : ℕ) × (rest : List Round) × (l ≡ ended key rest)
        × (key ≢ 0)
        × (triggers (detection k s.vibrator key (later_by detection_timeout s.noticed) first rest)
            ≡ true)
  unfolding is_triggered after_wait leave
  after_wait-key efd fds still_waiting h = absurd (cc h)
  after_wait-key efd fds (leaves key) h = absurd (cc h)
  after_wait-key efd fds (ended key rest) h = elim (Bool-cases (key == 0)) [
    | inl nothing ↦ let e : false ≡ true = rw nothing at h in absurd (cc e)
    | inr some_key ↦ (
      key,
      rest,
      refl,
      λ z. ground arith,
      sym (after_detection-triggers efd fds _) ∙ rw some_key at h,
    )
  ]

  key-after_wait :
      (efd : Option ℕ) (fds : List ℕ) (key : ℕ) (rest : List Round)
      → key ≢ 0
      → triggers (detection k s.vibrator key (later_by detection_timeout s.noticed) first rest)
        ≡ true
      → is_triggered (after_wait k s efd fds (ended key rest)) ≡ true
  unfolding is_triggered after_wait leave
  key-after_wait efd fds key rest ne h =
      rw (nonzero_test key ne) (after_detection-triggers efd fds _ ∙ h)

  keys-Triggered :
      (fds : List ℕ) (held : ℕ) (rounds : List Round)
      → AllPositive (physical_keycodes k)
      → is_triggered (wait_for_keys k s fds held rounds) ≡ true
      → (efd key : ℕ) × (rest : List Round) × (s.epoll ≡ some efd)
        × (any (λ fd. not (s.registers fd)) fds ≡ false)
        × StartedBy k (later_by initial_delay s.started) held key rounds rest
        × Repeated k key (later_by detection_timeout s.noticed) 1 rest
  unfolding wait_for_keys is_triggered leave
  keys-Triggered fds held rounds p h = elim (Option-cases s.epoll) [
    | inl failed ↦ let e : false ≡ true = rw (failed, wait_for_keys) at h in absurd (cc e)
    | inr (efd, created) ↦ elim (Bool-cases (any (λ fd. not (s.registers fd)) fds)) [
      | inl refused ↦
          let e : false ≡ true = rw (created, refused, wait_for_keys) at h in absurd (cc e)
      | inr registered ↦
          let wait = initial_wait k (later_by initial_delay s.started) held rounds in
          let e : is_triggered (after_wait k s (some efd) fds wait) ≡ true =
            rw (created, registered, wait_for_keys) at h in
          let (key, rest, waited, ne, five) = after_wait-key (some efd) fds wait e in
          (
            efd,
            key,
            rest,
            created,
            registered,
            ended-StartedBy k (later_by initial_delay s.started) held key rounds rest p waited ne,
            detection-Repeated k s.vibrator key (later_by detection_timeout s.noticed) first rest
                five,
          )
    ]
  ]

  Triggered-keys :
      (fds : List ℕ) (held efd key : ℕ) (rounds rest : List Round)
      → s.epoll ≡ some efd
      → any (λ fd. not (s.registers fd)) fds ≡ false
      → StartedBy k (later_by initial_delay s.started) held key rounds rest
      → Repeated k key (later_by detection_timeout s.noticed) 1 rest
      → is_triggered (wait_for_keys k s fds held rounds) ≡ true
  unfolding wait_for_keys
  Triggered-keys fds held efd key rounds rest created registered started repeated =
      let (waited, ne) =
        StartedBy-ended k (later_by initial_delay s.started) held key rounds rest started in
      let five =
        Repeated-detection k s.vibrator key (later_by detection_timeout s.noticed) first rest
          repeated.used repeated.timely repeated.same_key repeated.enough in
      rw (created, registered, wait_for_keys, waited)
        (key-after_wait (some efd) fds key rest ne five)

  detect-watch_devices :
      (skip : Bool) (rounds : List Round)
      → is_triggered (detect_safemode_trigger k s skip rounds)
        ≡ is_triggered (watch_devices k s (watched k s) skip rounds)
  unfolding detect_safemode_trigger
  detect-watch_devices skip rounds =
      with_closed-triggered (watched k s).closed (watch_devices k s (watched k s) skip rounds)

  detected-Triggered :
      (skip : Bool) (rounds : List Round)
      → AllPositive (physical_keycodes k)
      → is_triggered (watch_devices k s (watched k s) skip rounds) ≡ true
      → Triggered k s skip rounds
  unfolding watch_devices is_triggered leave
  detected-Triggered skip rounds p h = elim (Bool-cases (length (watched k s).fds == 0)) [
    | inl nothing ↦ let e : false ≡ true = rw nothing at h in absurd (cc e)
    | inr devices ↦ elim (ℤ-cases (watched k s).pressed_key) [
      | inr (n, several) ↦ let e : false ≡ true = rw (devices, several) at h in absurd (cc e)
      | inl (held, one) ↦ elim (Bool-cases ((held == 0) && skip)) [
        | inl skipped ↦ let e : false ≡ true = rw (devices, one, skipped) at h in absurd (cc e)
        | inr waits ↦
            let e : is_triggered (wait_for_keys k s (watched k s).fds held rounds) ≡ true =
              rw (devices, one, waits) at h in
            let (efd, key, rest, created, registered, started, repeated) =
              keys-Triggered (watched k s).fds held rounds p e in
            record {
              held = held;
              efd = efd;
              key = key;
              rest = rest;
              some_device = λ z. ground arith;
              held_key = one;
              not_skipped = λ z. ground arith;
              created = created;
              registered = registered;
              started = started;
              repeated = repeated;
            }
      ]
    ]
  ]

  not_skipping :
      (held : ℕ) (skip : Bool) → (held ≡ 0 → skip ≡ false) → ((held == 0) && skip) ≡ false
  not_skipping held skip h = elim (Bool-cases (held == 0)) [
    | inr some_key ↦ rw some_key
    | inl nothing ↦ let e : held ≡ 0 = ground arith in rw (nothing, h e)
  ]

  Triggered-detected :
      (skip : Bool) (rounds : List Round)
      → Triggered k s skip rounds
      → is_triggered (watch_devices k s (watched k s) skip rounds) ≡ true
  unfolding watch_devices
  Triggered-detected skip rounds t =
      rw
        (
          nonzero_test (length (watched k s).fds) t.some_device,
          t.held_key,
          not_skipping t.held skip t.not_skipped,
        )
        (Triggered-keys (watched k s).fds t.held t.efd t.key rounds t.rest t.created t.registered
          t.started t.repeated)

  -- Whatever the system answers, safe mode is reported exactly when there is a device, no second key
  -- is held at the start, all devices can be watched, and a key begins that is then pressed until
  -- there are five presses: it is the key that is held or, unless the initial delay is skipped, the
  -- last press of the first round with one; up to the end of the round that brings the fifth press,
  -- no other key is pressed, there is time left in every round, and no wait fails.
  pub detect_safemode_trigger-Triggered :
      (skip_initial_delay : Bool) (rounds : List Round)
      → AllPositive (physical_keycodes k)
      → (is_triggered (detect_safemode_trigger k s skip_initial_delay rounds) ≡ true)
        ↔ Triggered k s skip_initial_delay rounds
  detect_safemode_trigger-Triggered skip rounds p =
      let same = detect-watch_devices skip rounds in
      (
        λ h. detected-Triggered skip rounds p (sym same ∙ h),
        λ t. same ∙ Triggered-detected skip rounds t,
      )
