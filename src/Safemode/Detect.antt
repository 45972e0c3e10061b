-- ===== src/Safemode/Detect.antt =====
-- `detectSafemodeTrigger`, lines 178-331.
use xposed.Prelude.{
  ltb, ◌==◌, if◌then◌else◌, any, is_positive, ℕ, ◌+◌, Bool, true, false, not, ◌&&◌, Option, none,
  some, List, [], ◌∷◌, ◌++◌, leb, length, pos, negsuc, map,
}
use xposed.Safemode.Defs.{
  detection_presses, vibration_short, KeyCodes, physical_keycodes, Effect, vibrate, Timespec,
  get_remaining_time, initial_delay, detection_timeout, vibration_long, vibration_interval,
  max_devices, closes, Entry, Devices, open_key_devices,
}

pub record InputEvent : Type 0 where
  pub type : ℕ
  pub code : ℕ
  pub value : ℕ

-- What `read` gives for a device that is ready: an event, or another number of bytes.
pub data Reading : Type 0 where
  invalid_size : Reading
  event : InputEvent → Reading

-- One round of a loop: the clock when the time that remains is computed, and what `epoll_wait` and
-- the reads then give; `none` if it fails.
pub record Round : Type 0 where
  pub now : Timespec
  pub polled : Option (List Reading)

-- A loop is left by `goto leave`, runs to its end with the rounds that are then left, or still waits
-- when the rounds that the model was given are used up.
pub data Loop {ℓ} (A : Type ℓ) : Type ℓ where
  leaves : A → Loop A
  ended : A → List Round → Loop A
  still_waiting : Loop A

-- The presses that were counted, and the effects up to now.
pub record Count : Type 0 where
  pub presses : ℕ
  pub effects : List Effect

-- A batch of events is worked off, or jumps to `leave`.
pub data Batch : Type 0 where
  goes_on : Count → Batch
  stops : Count → Batch

-- What the system answers to `detectSafemodeTrigger`, besides the rounds of the two loops: the
-- input devices, the vibrator, the epoll descriptor, whether a device can be registered with it, and
-- the clock before each loop.
pub record Setting : Type 0 where
  pub directory : Option (List Entry)
  pub vibrator : Bool
  pub epoll : Option ℕ
  pub registers : ℕ → Bool
  pub started : Timespec
  pub noticed : Timespec

abbrev pub later_by : ℕ → Timespec → Timespec
later_by seconds t = record t { tv_sec = t.tv_sec + seconds }

module _ (k : KeyCodes) where
  -- The code of a reading that both loops react to: a key event, a press, of one of the keys.
  unfoldable pub pressed_code : Reading → Option ℕ
  pressed_code invalid_size = none
  pressed_code (event e) =
      if not (e.type == k.ev_key)
      then none
      else if not (e.value == 1)
      then none
      else if any (λ code. e.code == code) (physical_keycodes k)
      then some e.code
      else none

  -- Lines 232-256: the devices that are ready in the initial wait.
  unfoldable pub initial_batch : ℕ → List Reading → ℕ
  initial_batch pressed [] = pressed
  initial_batch pressed (r ∷ rs) =
      initial_batch (elim (pressed_code r) [ none ↦ pressed | some code ↦ code ]) rs

  -- Lines 225-257: the initial wait.
  unfoldable pub initial_wait : Timespec → ℕ → List Round → Loop ℕ
  initial_wait expiration pressed [] = if pressed == 0 then still_waiting else ended pressed []
  initial_wait expiration pressed (r ∷ rs) = elim (pressed == 0) [
    | false ↦ ended pressed (r ∷ rs)
    | true ↦ elim (is_positive (get_remaining_time r.now expiration)) [
      | false ↦ ended pressed rs
      | true ↦ elim r.polled [
        | none ↦ leaves pressed
        | some readings ↦ initial_wait expiration (initial_batch pressed readings) rs
      ]
    ]
  ]

module _ (k : KeyCodes) (vibrator : Bool) (pressed_key : ℕ) where
  -- Lines 298-313, for a press of one of the keys.
  unfoldable pub count_press : ℕ → Count → Batch
  count_press code c =
      if pressed_key == code
      then goes_on (record {
        presses = c.presses + 1;
        effects =
            if ltb (c.presses + 1) detection_presses
            then c.effects ++ vibrate vibrator 1 vibration_short 0
            else c.effects;
      })
      else stops c

  -- Lines 284-314.
  unfoldable pub count_batch : Count → List Reading → Batch
  count_batch c [] = goes_on c
  count_batch c (r ∷ rs) = elim (pressed_code k r) [
    | none ↦ count_batch c rs
    | some code ↦ elim (count_press code c) [ stops c' ↦ stops c' | goes_on c' ↦ count_batch c' rs ]
  ]

  -- Lines 276-315: the detection.
  unfoldable pub detection : Timespec → Count → List Round → Loop Count
  detection expiration c [] = if ltb c.presses detection_presses then still_waiting else ended c []
  detection expiration c (r ∷ rs) = elim (ltb c.presses detection_presses) [
    | false ↦ ended c (r ∷ rs)
    | true ↦ elim (is_positive (get_remaining_time r.now expiration)) [
      | false ↦ ended c rs
      | true ↦ elim r.polled [
        | none ↦ leaves c
        | some readings ↦ elim (count_batch c readings) [
          | stops c' ↦ leaves c'
          | goes_on c' ↦ detection expiration c' rs
        ]
      ]
    ]
  ]

-- The result, and what the code did.
pub record Detected : Type 0 where
  pub result : Bool
  pub effects : List Effect

-- `leave`: the epoll descriptor, if there is one, and the devices are closed.
unfoldable pub leave : Option ℕ → List ℕ → List Effect → Bool → Detected
leave efd fds so_far result = record {
  result = result;
  effects = so_far ++ (elim efd [ none ↦ [] | some fd ↦ closes fd ∷ [] ] ++ map closes fds);
}

-- What was closed before the effects of the detection.
unfoldable pub with_closed : List ℕ → Option Detected → Option Detected
with_closed fds none = none
with_closed fds (some d) = some (record d { effects = map closes fds ++ d.effects })

module _ (k : KeyCodes) (s : Setting) where
  -- Lines 317-321, and `leave`.
  unfoldable pub after_detection : Option ℕ → List ℕ → Loop Count → Option Detected
  unfolding leave
  after_detection efd fds still_waiting = none
  after_detection efd fds (leaves c) = some (leave efd fds c.effects false)
  after_detection efd fds (ended c rest) = some (
      if leb detection_presses c.presses
      then leave efd fds (c.effects ++ vibrate s.vibrator 1 vibration_long 0) true
      else leave efd fds c.effects false)

  -- Lines 258-321.
  unfoldable pub after_wait : Option ℕ → List ℕ → Loop ℕ → Option Detected
  unfolding leave after_detection
  after_wait efd fds still_waiting = none
  after_wait efd fds (leaves pressed) = some (leave efd fds [] false)
  after_wait efd fds (ended pressed rounds) =
      let first : Count = record {
        presses = 1;
        effects = vibrate s.vibrator 2 vibration_short vibration_interval;
      } in
      if pressed == 0
      then some (leave efd fds [] false)
      else after_detection efd fds
          (detection k s.vibrator pressed (later_by detection_timeout s.noticed) first rounds)

  -- Lines 203-321. Any device that cannot be registered ends the detection.
  unfoldable pub wait_for_keys : List ℕ → ℕ → List Round → Option Detected
  unfolding leave after_wait
  wait_for_keys fds pressed rounds = elim s.epoll [
    | none ↦ some (leave none fds [] false)
    | some efd ↦
        if any (λ fd. not (s.registers fd)) fds
        then some (leave (some efd) fds [] false)
        else after_wait (some efd) fds
            (initial_wait k (later_by initial_delay s.started) pressed rounds)
  ]

  -- Lines 188-321, with these devices open.
  unfoldable pub watch_devices : Devices → Bool → List Round → Option Detected
  unfolding leave wait_for_keys
  watch_devices d skip_initial_delay rounds =
      if length d.fds == 0 then some (leave none d.fds [] false) else elim d.pressed_key [
        | negsuc n ↦ some (leave none d.fds [] false)
        | pos pressed ↦
            if pressed == 0 && skip_initial_delay
            then some (leave none d.fds [] false)
            else wait_for_keys d.fds pressed rounds
      ]

  -- `none`: the detection still waits when the rounds are used up. `openKeyDevices` has closed the devices
  -- without a relevant key before.
  unfoldable pub detect_safemode_trigger : Bool → List Round → Option Detected
  unfolding open_key_devices watch_devices with_closed
  detect_safemode_trigger skip_initial_delay rounds =
      let d = open_key_devices (physical_keycodes k) s.directory max_devices in
      with_closed d.closed (watch_devices d skip_initial_delay rounds)
