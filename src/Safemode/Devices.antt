-- ===== src/Safemode/Devices.antt =====
-- What `openKeyDevices` finds, said without its loops.
use xposed.Prelude.{
  if◌then◌else◌, Bytes, take, any, keep, keep_map, ℤ, pos, minus_one, ℕ, ◌<◌, ◌≡◌, Option, none,
  some, List, [], ◌∷◌, ◌++◌, Bool, map, append-nil, arith, ◌==◌, Bool-cases, inl, inr, false, sym,
  ap, ◌∙◌, append_assoc, Option-cases, length, ◌-◌, map-append, ltb, ltb→lt, ltb→le, length-append,
  take-nil, length-map, suc, ◌+◌, refl, subst,
}
use xposed.Safemode.Defs.{
  test_bit, Entry, is_dot_entry, scan_held, Devices, visit_device, visit_entry, visit_entries,
  open_key_devices,
}

-- The descriptor and the keys that are down, for an entry that is a device with a relevant key.
key_device : List ℕ → Entry → Option (ℕ × List ℕ)
key_device keys e = if is_dot_entry e.name then none else elim e.opened [
  | none ↦ none
  | some fd ↦
      if any (λ k. test_bit k e.reported) keys
      then some (fd, keep (λ k. test_bit k e.held) keys)
      else none
]

-- The devices of a directory: the first `n` of them.
pub key_devices : List ℕ → ℕ → List Entry → List (ℕ × List ℕ)
key_devices keys n entries = take n (keep_map (key_device keys) entries)

-- The keys that are down on some device.
abbrev pub all_held : List (ℕ × List ℕ) → List ℕ
all_held [] = []
all_held ((fd, held) ∷ ds) = held ++ all_held ds

-- 0 for no key, the key if there is one alone, -1 for more.
abbrev pub the_key : List ℕ → ℤ
the_key [] = pos 0
the_key (k ∷ []) = pos k
the_key (k ∷ _ ∷ _) = minus_one

-- A code of 0 would be taken for no key.
abbrev pub AllPositive : List ℕ → Type 0
AllPositive [] = Unit {0}
AllPositive (k ∷ ks) = (0 < k) × AllPositive ks

AllPositive-append : (xs ys : List ℕ) → AllPositive xs → AllPositive ys → AllPositive (xs ++ ys)
AllPositive-append [] ys p q = q
AllPositive-append (x ∷ xs) ys p q = (p.0, AllPositive-append xs ys p.1 q)

AllPositive-keep : (t : ℕ → Bool) (xs : List ℕ) → AllPositive xs → AllPositive (keep t xs)
AllPositive-keep t [] p = tt
AllPositive-keep t (x ∷ xs) p = ground (arith, AllPositive-keep t xs p.1)

nonzero : (a : ℕ) → 0 < a → (a == 0) ≡ false
nonzero a h = ground arith

scan_held-the_key :
    (held : Bytes) (keys earlier : List ℕ)
    → AllPositive keys
    → AllPositive earlier
    → scan_held held keys (the_key earlier) ≡ the_key (earlier ++ keep (λ k. test_bit k held) keys)
unfolding scan_held
scan_held-the_key held [] earlier p q = rw append-nil
scan_held-the_key held (k ∷ keys) [] p q = elim (Bool-cases (test_bit k held)) [
  | inl h ↦ rw (h, scan_held) (scan_held-the_key held keys (k ∷ []) p.1 (p.0, tt))
  | inr h ↦ rw (h, scan_held) (scan_held-the_key held keys [] p.1 tt)
]
scan_held-the_key held (k ∷ keys) (a ∷ []) p q = elim (Bool-cases (test_bit k held)) [
  | inl h ↦ rw (h, scan_held, nonzero a q.0)
  | inr h ↦ rw (h, scan_held) (scan_held-the_key held keys (a ∷ []) p.1 q)
]
scan_held-the_key held (k ∷ keys) (a ∷ b ∷ earlier) p q = elim (Bool-cases (test_bit k held)) [
  | inl h ↦ rw (h, scan_held)
  | inr h ↦ rw (h, scan_held) (scan_held-the_key held keys (a ∷ b ∷ earlier) p.1 q)
]

fds_of : List (ℕ × List ℕ) → List ℕ
fds_of = map (λ d. d.0)

-- What the loop has when these devices have been found.
Found : List (ℕ × List ℕ) → Devices → Type 0
Found ds d = (d.fds ≡ map (λ x. x.0) ds) × (d.pressed_key ≡ the_key (all_held ds))

all_held-append :
    (ds : List (ℕ × List ℕ)) (fd : ℕ) (held : List ℕ)
    → all_held (ds ++ (fd, held) ∷ []) ≡ all_held ds ++ held
all_held-append [] fd held = append-nil held
all_held-append ((a, h) ∷ ds) fd held =
    ap (λ (x : List ℕ). h ++ x) (all_held-append ds fd held)
    ∙ sym (append_assoc h (all_held ds) held)

-- The devices found before, and the one of this entry.
abbrev with_device : List (ℕ × List ℕ) → Option (ℕ × List ℕ) → List (ℕ × List ℕ)
with_device ds none = ds
with_device ds (some d) = ds ++ d ∷ []

take-with_device :
    (n : ℕ) (ds : List (ℕ × List ℕ)) (o : Option (ℕ × List ℕ)) (rest : List (ℕ × List ℕ))
    → length ds < n
    → with_device ds o ++ take (n - length (with_device ds o)) rest
      ≡ ds ++ take (n - length ds) (elim o [ none ↦ rest | some y ↦ y ∷ rest ])
take-with_device n ds none rest h = refl
take-with_device n ds (some d) rest h =
    let e : n - length ds ≡ suc (n - (length ds + 1)) = omega arith in
    let l : length (ds ++ d ∷ []) ≡ length ds + 1 = length-append ds (d ∷ []) in
    rw (e, l) (append_assoc ds (d ∷ []) _)

module _ (keys : List ℕ) (positive : AllPositive keys) where
  visit_device-Found :
      (e : Entry) (fd : ℕ) (ds : List (ℕ × List ℕ)) (d : Devices)
      → AllPositive (all_held ds)
      → Found ds d
      → Found
          (with_device ds (
            if any (λ k. test_bit k e.reported) keys
            then some (fd, keep (λ k. test_bit k e.held) keys)
            else none))
          (visit_device keys e fd d)
  unfolding visit_device Found
  visit_device-Found e fd ds d q f = elim (Bool-cases (any (λ k. test_bit k e.reported) keys)) [
    | inl h ↦ rw h (
      rw f.0 (rw map-append),
      rw f.1 (
          scan_held-the_key e.held keys (all_held ds) positive q
          ∙ ap the_key (sym (all_held-append ds fd (keep (λ k. test_bit k e.held) keys)))),
    )
    | inr h ↦ rw h f
  ]

  visit_entry-Found :
      (e : Entry) (ds : List (ℕ × List ℕ)) (d : Devices)
      → AllPositive (all_held ds)
      → Found ds d
      → Found (with_device ds (key_device keys e)) (visit_entry keys e d)
  unfolding visit_entry key_device
  visit_entry-Found e ds d q f = elim (Bool-cases (is_dot_entry e.name)) [
    | inl h ↦ rw h f
    | inr h ↦ elim (Option-cases e.opened) [
      | inl none_open ↦ rw (h, none_open) f
      | inr (fd, is_open) ↦ rw (h, is_open) (visit_device-Found e fd ds d q f)
    ]
  ]

  key_device-AllPositive :
      (e : Entry) (ds : List (ℕ × List ℕ))
      → AllPositive (all_held ds)
      → AllPositive (all_held (with_device ds (key_device keys e)))
  unfolding key_device
  key_device-AllPositive e ds q =
      grind (arith, all_held-append, AllPositive-append, AllPositive-keep)

  -- The loop goes on to the devices of the entries that are left, up to the limit.
  visit_entries-Found :
      (max_fds : ℕ) (es : List Entry) (ds : List (ℕ × List ℕ)) (d : Devices)
      → AllPositive (all_held ds)
      → Found ds d
      → Found
          (ds ++ take (max_fds - length ds) (keep_map (key_device keys) es))
          (visit_entries keys max_fds es d)
  unfolding visit_entries Found
  visit_entries-Found max_fds [] ds d q f = rw (take-nil (max_fds - length ds), append-nil ds) f
  visit_entries-Found max_fds (e ∷ es) ds d q f =
      let same : length d.fds ≡ length ds = ap length f.0 ∙ length-map (λ x. x.0) ds in
      elim (Bool-cases (ltb (length d.fds) max_fds)) [
        | inl h ↦ rw h (
            subst (λ x. Found x (visit_entries keys max_fds es (visit_entry keys e d)))
              (take-with_device max_fds ds (key_device keys e) (keep_map (key_device keys) es)
                (omega (arith, ltb→lt (length d.fds) max_fds h)))
              (visit_entries-Found max_fds es (with_device ds (key_device keys e))
                (visit_entry keys e d) (key_device-AllPositive e ds q)
                (visit_entry-Found e ds d q f)))
        | inr h ↦
            let full : max_fds - length ds ≡ 0 = omega (arith, ltb→le (length d.fds) max_fds h) in
            rw (h, full, append-nil ds) f
      ]

-- `openKeyDevices` opens the first `max_fds` devices of the directory that report a relevant key, in
-- the directory's order, and reports the key that is down: 0 if none of them has one, the key
-- itself if it is alone, and -1 otherwise. Without the directory it opens nothing.
pub open_key_devices-key_devices :
    (keys : List ℕ) (max_fds : ℕ) (entries : List Entry)
    → AllPositive keys
    → ((open_key_devices keys (some entries) max_fds).fds
        ≡ map (λ x. x.0) (key_devices keys max_fds entries))
      × ((open_key_devices keys (some entries) max_fds).pressed_key
          ≡ the_key (all_held (key_devices keys max_fds entries)))
      × ((open_key_devices keys none max_fds).fds ≡ [])
unfolding open_key_devices key_devices Found
open_key_devices-key_devices keys max_fds entries positive =
    let nothing : Devices = record { fds = []; pressed_key = pos 0; closed = [] } in
    let all : max_fds - 0 ≡ max_fds = omega arith in
    let f =
      subst
        (λ (n : ℕ).
          Found (take n (keep_map (key_device keys) entries))
            (visit_entries keys max_fds entries nothing))
        all (visit_entries-Found keys positive max_fds entries [] nothing tt (refl, refl)) in
    (f.0, f.1, refl)
