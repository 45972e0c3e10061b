-- ===== src/Safemode/Opened.antt =====
-- Which descriptors `openKeyDevices` opens, said of the directory alone.
use xposed.Prelude.{
  ltb, ◌==◌, if◌then◌else◌, Bool-cases, Option-cases, length, any, ℕ, suc, ◌+◌, ◌-◌, ◌≡◌, inl, inr,
  Option, none, some, List, [], ◌∷◌, ◌++◌, arith, true, false, length-append, ap, ◌∙◌, pos,
}
use xposed.Safemode.Defs.{
  test_bit, Entry, is_dot_entry, Devices, visit_device, visit_entry, visit_entries,
  open_key_devices, scan_held,
}

-- The descriptors of the entries that the scan opens: those of all entries that can be opened, as
-- long as there is room for one more device with a relevant key.
pub opened_fds : List ℕ → (room : ℕ) → List Entry → List ℕ
opened_fds keys room [] = []
opened_fds keys room (e ∷ es) =
    if room == 0
    then []
    else if is_dot_entry e.name
    then opened_fds keys room es
    else elim e.opened [
      | none ↦ opened_fds keys room es
      | some fd ↦
          if any (λ k. test_bit k e.reported) keys
          then fd ∷ opened_fds keys (room - 1) es
          else fd ∷ opened_fds keys room es
    ]

abbrev pub directory_fds : List ℕ → (room : ℕ) → Option (List Entry) → List ℕ
directory_fds keys room none = []
directory_fds keys room (some es) = opened_fds keys room es

-- How often a number stands in a list.
pub times : ℕ → List ℕ → ℕ
times x [] = 0
times x (y ∷ ys) = if x == y then suc (times x ys) else times x ys

pub times-append : (x : ℕ) (ys zs : List ℕ) → times x (ys ++ zs) ≡ times x ys + times x zs
unfolding times
times-append x [] zs = omega arith
times-append x (y ∷ ys) zs = ground (arith, times-append x ys zs)

-- The devices that are kept and those that are closed again.
handled : ℕ → Devices → ℕ
handled x d = times x d.fds + times x d.closed

module _ (keys : List ℕ) (x max_fds : ℕ) where
  visit_entries-handled :
      (es : List Entry) (d : Devices)
      → handled x (visit_entries keys max_fds es d)
        ≡ handled x d + times x (opened_fds keys (max_fds - length d.fds) es)
  unfolding visit_entries visit_entry visit_device handled opened_fds times
  visit_entries-handled [] d = omega arith
  visit_entries-handled (e ∷ es) d = elim (Bool-cases (ltb (length d.fds) max_fds)) [
    | inr full ↦
        let no_room : (max_fds - length d.fds == 0) ≡ true = ground arith in
        rw (full, no_room) (omega arith)
    | inl more ↦
        let room : (max_fds - length d.fds == 0) ≡ false = ground arith in
        elim (Bool-cases (is_dot_entry e.name)) [
          | inl dots ↦ rw (more, room, dots) (visit_entries-handled es d)
          | inr file ↦ elim (Option-cases e.opened) [
            | inl unopened ↦ rw (more, room, file, unopened) (visit_entries-handled es d)
            | inr (fd, is_open) ↦ elim (Bool-cases (any (λ k. test_bit k e.reported) keys)) [
              | inr skipped ↦
                  let d' : Devices = record d { closed = d.closed ++ fd ∷ [] } in
                  let rest = visit_entries-handled es d' in
                  let more_closed = times-append x d.closed (fd ∷ []) in
                  rw (more, room, file, is_open, skipped) (ground (arith, rest, more_closed))
              | inl kept ↦
                  let d' : Devices = record d {
                    fds = d.fds ++ fd ∷ [];
                    pressed_key = scan_held e.held keys d.pressed_key;
                  } in
                  let left : max_fds - length d'.fds ≡ max_fds - length d.fds - 1 =
                    omega (arith, length-append d.fds (fd ∷ [])) in
                  let rest =
                    visit_entries-handled es d'
                    ∙ ap (λ (room : ℕ). handled x d' + times x (opened_fds keys room es)) left in
                  let more_fds = times-append x d.fds (fd ∷ []) in
                  rw (more, room, file, is_open, kept) (ground (arith, rest, more_fds))
            ]
          ]
        ]
  ]

-- The scan opens these, and each is among the devices or closed again.
pub open_key_devices-times :
    (keys : List ℕ) (x max_fds : ℕ) (directory : Option (List Entry))
    → times x (open_key_devices keys directory max_fds).closed
        + times x (open_key_devices keys directory max_fds).fds
      ≡ times x (directory_fds keys max_fds directory)
unfolding open_key_devices handled times
open_key_devices-times keys x max_fds none = omega arith
open_key_devices-times keys x max_fds (some es) =
    let nothing : Devices = record { fds = []; pressed_key = pos 0; closed = [] } in
    let all : max_fds - 0 ≡ max_fds = omega arith in
    omega (
      arith,
      visit_entries-handled keys x max_fds es nothing,
      ap (λ (room : ℕ). times x (opened_fds keys room es)) all,
    )
