-- ===== src/Safemode/Defs.antt =====
-- The functions of xposed_safemode.cpp. What the system answers (the input devices, the clock, the
-- events) is a parameter; what the code does to the world is a list of effects.
use xposed.Prelude.{
  ltb, ◌==◌, if◌then◌else◌, Bytes, length, get_or, any, ℤ, pos, pos_part, neg_part, sub_ℕ,
  minus_one, is_zero, ◌+ℤ◌, ℕ, zero, suc, ◌+◌, ◌-◌, ◌*◌, ◌/◌, ◌%◌, ◌^◌, bit_and, Bool, true, false,
  not, ◌&&◌, ◌||◌, Option, none, some, List, [], ◌∷◌, ◌++◌,
}

abbrev pub initial_delay : ℕ
initial_delay = 2

abbrev pub detection_timeout : ℕ
detection_timeout = 5

abbrev pub detection_presses : ℕ
detection_presses = 5

abbrev pub vibration_short : ℕ
vibration_short = 150

abbrev pub vibration_long : ℕ
vibration_long = 500

abbrev pub vibration_interval : ℕ
vibration_interval = 200

abbrev pub max_devices : ℕ
max_devices = 4

-- The codes of linux/input.h, which is not in this repository.
pub record KeyCodes : Type 0 where
  pub volume_down : ℕ
  pub volume_up : ℕ
  pub power : ℕ
  pub home : ℕ
  pub back : ℕ
  pub menu : ℕ
  pub camera : ℕ
  pub ev_key : ℕ

abbrev pub physical_keycodes : KeyCodes → List ℕ
physical_keycodes k =
    k.volume_down ∷ k.volume_up ∷ k.power ∷ k.home ∷ k.back ∷ k.menu ∷ k.camera ∷ []

-- `array[bit/8] & (1<<(bit%8))`
unfoldable pub test_bit : ℕ → Bytes → Bool
test_bit bit array = not (bit_and (get_or array (bit / 8) 0) (2 ^ (bit % 8)) == 0)

-- What the code does: a duration written to the vibrator, a sleep in microseconds, a device or epoll
-- descriptor that it closes; and the vibrator's control file that it opens and closes.
pub data Effect : Type 0 where
  writes : ℕ → Effect
  sleeps : ℕ → Effect
  closes : ℕ → Effect
  opens_vibrator : Effect
  closes_vibrator : Effect

-- The loop of `vibrate`, from round `i` on.
unfoldable pub vibrate_loop : ℕ → ℕ → ℕ → ℕ → List Effect
vibrate_loop zero i duration interval = []
vibrate_loop (suc left) i duration interval =
    let rest = writes duration ∷ vibrate_loop left (i + 1) duration interval in
    if i == 0 then rest else sleeps ((duration + interval) * 1000) ∷ rest

-- `vibrate`, given whether the control file can be opened.
unfoldable pub vibrate : Bool → ℕ → ℕ → ℕ → List Effect
unfolding vibrate_loop
vibrate opened count duration interval =
    if opened
    then opens_vibrator ∷ (vibrate_loop count 0 duration interval ++ closes_vibrator ∷ [])
    else []

-- A file of /dev/input: its name, the descriptor that `open` gives, and the bits that the device
-- reports for the keys it has and for those that are down.
pub record Entry : Type 0 where
  pub name : Bytes
  pub opened : Option ℕ
  pub reported : Bytes
  pub held : Bytes

-- `.` and `..`
unfoldable pub is_dot_entry : Bytes → Bool
is_dot_entry name =
    get_or name 0 0 == b'.'
    && (get_or name 1 0 == 0 || (get_or name 1 0 == b'.' && get_or name 2 0 == 0))

-- The output of `openKeyDevices`: the open devices, the key that is down, and what was closed again.
pub record Devices : Type 0 where
  pub fds : List ℕ
  pub pressed_key : ℤ
  pub closed : List ℕ

-- The loop over the keys that are down on one device; a second one ends it.
unfoldable pub scan_held : Bytes → List ℕ → ℤ → ℤ
scan_held held [] pressed = pressed
scan_held held (key ∷ keys) pressed = elim (test_bit key held) [
  | true ↦ elim (is_zero pressed) [ true ↦ scan_held held keys (pos key) | false ↦ minus_one ]
  | false ↦ scan_held held keys pressed
]

module _ (keys : List ℕ) where
  unfoldable pub visit_device : Entry → ℕ → Devices → Devices
  visit_device e fd d =
      if any (λ k. test_bit k e.reported) keys
      then record d { fds = d.fds ++ fd ∷ []; pressed_key = scan_held e.held keys d.pressed_key }
      else record d { closed = d.closed ++ fd ∷ [] }

  unfoldable pub visit_entry : Entry → Devices → Devices
  unfolding visit_device
  visit_entry e d =
      if is_dot_entry e.name then d else elim e.opened [ none ↦ d | some fd ↦ visit_device e fd d ]

  unfoldable pub visit_entries : ℕ → List Entry → Devices → Devices
  unfolding visit_entry
  visit_entries max_fds [] d = d
  visit_entries max_fds (e ∷ es) d =
      if ltb (length d.fds) max_fds then visit_entries max_fds es (visit_entry e d) else d

  -- `openKeyDevices`, given the directory's entries if it can be opened.
  unfoldable pub open_key_devices : Option (List Entry) → ℕ → Devices
  unfolding visit_entries
  open_key_devices directory max_fds =
      let nothing : Devices = record { fds = []; pressed_key = pos 0; closed = [] } in
      elim directory [ none ↦ nothing | some es ↦ visit_entries max_fds es nothing ]

pub record Timespec : Type 0 where
  pub tv_sec : ℕ
  pub tv_nsec : ℕ

-- Division of integers in C goes towards zero.
unfoldable pub div_ℤ : ℤ → ℕ → ℤ
div_ℤ a n = sub_ℕ (pos_part a / n) (neg_part a / n)

-- `getRemainingTime`, at this time of the clock.
unfoldable pub get_remaining_time : Timespec → Timespec → ℤ
unfolding div_ℤ ◌+ℤ◌
get_remaining_time now expiration =
    if ltb expiration.tv_sec now.tv_sec
    then pos 0
    else pos ((expiration.tv_sec - now.tv_sec) * 1000)
      +ℤ div_ℤ (sub_ℕ expiration.tv_nsec now.tv_nsec) 1_000_000
