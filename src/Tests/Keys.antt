-- ===== src/Tests/Keys.antt =====
-- A detection that triggers safe mode.
use xposed.Prelude.{
  ◌≡◌, refl, true, false, some, List, [], ◌∷◌, arith, ◌↔◌, ◌≢◌, none, ℕ, ◌+◌, bytes_of,
}
use xposed.Safemode.Defs.{
  Entry, max_devices, KeyCodes, physical_keycodes, test_bit, writes, sleeps, closes, vibrate_loop,
  vibrate, is_dot_entry, scan_held, visit_device, visit_entries, Timespec, get_remaining_time,
  opens_vibrator, closes_vibrator,
}
use xposed.Safemode.Detect.{
  Reading, event, Round, Setting, pressed_code, initial_wait, count_press, count_batch, detection,
  Detected, detect_safemode_trigger,
}
use xposed.Safemode.Devices.{AllPositive}
use xposed.Safemode.Effects.{closed_by, written, IsBalanced}
use xposed.Safemode.Ended.{late_rounds, detect_safemode_trigger-ends}
use xposed.Safemode.Opened.{directory_fds, times}
use xposed.Safemode.Tidy.{
  opened_epoll, signal, created_epoll, detect_safemode_trigger-closes,
  detect_safemode_trigger-signal,
}
use xposed.Safemode.Trigger.{is_triggered, Triggered, detect_safemode_trigger-Triggered}
use xposed.Tests.Boot.{device}

abbrev pub key_codes : KeyCodes
key_codes = record {
  volume_down = 1;
  volume_up = 2;
  power = 3;
  home = 4;
  back = 5;
  menu = 6;
  camera = 7;
  ev_key = 1;
}

abbrev pub clock : Timespec
clock = record { tv_sec = 10; tv_nsec = 0 }

-- A device without one of the keys.
abbrev mouse : Entry
mouse = record { name = bytes_of "event1"; opened = some 8; reported = 0 ∷ []; held = [] }

abbrev pub setting : Setting
setting = record {
  directory = some (mouse ∷ device ∷ []);
  vibrator = true;
  epoll = some 30;
  registers = λ fd. true;
  started = clock;
  noticed = clock;
}

abbrev pub press : Reading
press = event (record { type = 1; code = 1; value = 1 })

abbrev pub presses_at_once : List Round
presses_at_once =
    record { now = clock; polled = some (press ∷ press ∷ press ∷ press ∷ press ∷ []) } ∷ []

abbrev pub success_run : Detected
success_run = record {
  result = true;
  effects =
      closes 8
      ∷ opens_vibrator
      ∷ writes 150
      ∷ sleeps 350_000
      ∷ writes 150
      ∷ closes_vibrator
      ∷ opens_vibrator
      ∷ writes 150
      ∷ closes_vibrator
      ∷ opens_vibrator
      ∷ writes 150
      ∷ closes_vibrator
      ∷ opens_vibrator
      ∷ writes 150
      ∷ closes_vibrator
      ∷ opens_vibrator
      ∷ writes 500
      ∷ closes_vibrator
      ∷ closes 30
      ∷ closes 9
      ∷ [];
}

presses_at_once-trigger :
    detect_safemode_trigger key_codes setting false presses_at_once ≡ some success_run
unfolding detect_safemode_trigger detection count_batch count_press pressed_code initial_wait
    scan_held visit_device visit_entries test_bit is_dot_entry get_remaining_time vibrate
    vibrate_loop
presses_at_once-trigger = refl

detect_safemode_trigger-closes_example :
    ((fd : ℕ)
      → times fd (closed_by success_run.effects)
        ≡ times fd (opened_epoll (created_epoll key_codes setting false))
          + times fd (directory_fds (physical_keycodes key_codes) max_devices setting.directory))
    × IsBalanced success_run.effects
detect_safemode_trigger-closes_example =
    detect_safemode_trigger-closes key_codes setting false presses_at_once success_run
      presses_at_once-trigger

detect_safemode_trigger-signal_example : written success_run.effects ≡ signal true
detect_safemode_trigger-signal_example =
    detect_safemode_trigger-signal key_codes setting false presses_at_once success_run
      presses_at_once-trigger refl

key_codes-AllPositive : AllPositive (physical_keycodes key_codes)
key_codes-AllPositive = omega arith

detect_safemode_trigger-Triggered_example :
    (is_triggered (detect_safemode_trigger key_codes setting false presses_at_once) ≡ true)
    ↔ Triggered key_codes setting false presses_at_once
detect_safemode_trigger-Triggered_example =
    detect_safemode_trigger-Triggered key_codes setting false presses_at_once key_codes-AllPositive

-- Nothing is pressed, and the time is over.
abbrev late : Round
late = record { now = record { tv_sec = 1000; tv_nsec = 0 }; polled = some [] }

detect_safemode_trigger-ends_example :
    detect_safemode_trigger key_codes setting false (late ∷ late ∷ []) ≢ none
unfolding late_rounds get_remaining_time
detect_safemode_trigger-ends_example =
    detect_safemode_trigger-ends key_codes setting false (late ∷ late ∷ []) (omega arith)
