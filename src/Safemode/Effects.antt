-- ===== src/Safemode/Effects.antt =====
-- What `detectSafemodeTrigger` leaves behind: which descriptors it closes, and what it has written
-- to the vibrator.
use xposed.Prelude.{
  ltb, if◌then◌else◌, ℕ, zero, suc, ◌≡◌, refl, ap, Bool, List, [], ◌∷◌, ◌++◌, map, ◌+◌, arith,
}
use xposed.Safemode.Defs.{
  vibration_short, Effect, writes, sleeps, closes, opens_vibrator, closes_vibrator,
}
use xposed.Safemode.Presses.{presses}

abbrev pub closed_by : List Effect → List ℕ
closed_by [] = []
closed_by (writes d ∷ es) = closed_by es
closed_by (sleeps d ∷ es) = closed_by es
closed_by (closes fd ∷ es) = fd ∷ closed_by es
closed_by (opens_vibrator ∷ es) = closed_by es
closed_by (closes_vibrator ∷ es) = closed_by es

-- How often the vibrator's control file is opened, and closed.
abbrev pub vibrator_opens : List Effect → ℕ
vibrator_opens [] = 0
vibrator_opens (writes d ∷ es) = vibrator_opens es
vibrator_opens (sleeps d ∷ es) = vibrator_opens es
vibrator_opens (closes fd ∷ es) = vibrator_opens es
vibrator_opens (opens_vibrator ∷ es) = suc (vibrator_opens es)
vibrator_opens (closes_vibrator ∷ es) = vibrator_opens es

abbrev pub vibrator_closes : List Effect → ℕ
vibrator_closes [] = 0
vibrator_closes (writes d ∷ es) = vibrator_closes es
vibrator_closes (sleeps d ∷ es) = vibrator_closes es
vibrator_closes (closes fd ∷ es) = vibrator_closes es
vibrator_closes (opens_vibrator ∷ es) = vibrator_closes es
vibrator_closes (closes_vibrator ∷ es) = suc (vibrator_closes es)

pub vibrator_opens-append :
    (es fs : List Effect) → vibrator_opens (es ++ fs) ≡ vibrator_opens es + vibrator_opens fs
vibrator_opens-append [] fs = omega arith
vibrator_opens-append (e ∷ es) fs = ground (arith, vibrator_opens-append es fs)

pub vibrator_closes-append :
    (es fs : List Effect) → vibrator_closes (es ++ fs) ≡ vibrator_closes es + vibrator_closes fs
vibrator_closes-append [] fs = omega arith
vibrator_closes-append (e ∷ es) fs = ground (arith, vibrator_closes-append es fs)

-- Every opening of the control file has its closing.
abbrev pub IsBalanced : List Effect → Type 0
IsBalanced es = vibrator_opens es ≡ vibrator_closes es

pub append-IsBalanced :
    (es fs : List Effect) → IsBalanced es → IsBalanced fs → IsBalanced (es ++ fs)
append-IsBalanced es fs h k =
    omega (arith, h, k, vibrator_opens-append es fs, vibrator_closes-append es fs)

pub closes-IsBalanced : (fds : List ℕ) → IsBalanced (map closes fds)
closes-IsBalanced [] = refl
closes-IsBalanced (fd ∷ fds) = closes-IsBalanced fds

abbrev pub written : List Effect → List ℕ
written [] = []
written (writes d ∷ es) = d ∷ written es
written (sleeps d ∷ es) = written es
written (closes fd ∷ es) = written es
written (opens_vibrator ∷ es) = written es
written (closes_vibrator ∷ es) = written es

pub closed_by-append : (es fs : List Effect) → closed_by (es ++ fs) ≡ closed_by es ++ closed_by fs
closed_by-append [] fs = refl
closed_by-append (writes d ∷ es) fs = closed_by-append es fs
closed_by-append (sleeps d ∷ es) fs = closed_by-append es fs
closed_by-append (opens_vibrator ∷ es) fs = closed_by-append es fs
closed_by-append (closes_vibrator ∷ es) fs = closed_by-append es fs
closed_by-append (closes fd ∷ es) fs = ap (λ (x : List ℕ). fd ∷ x) (closed_by-append es fs)

pub written-append : (es fs : List Effect) → written (es ++ fs) ≡ written es ++ written fs
written-append [] fs = refl
written-append (writes d ∷ es) fs = ap (λ (x : List ℕ). d ∷ x) (written-append es fs)
written-append (sleeps d ∷ es) fs = written-append es fs
written-append (opens_vibrator ∷ es) fs = written-append es fs
written-append (closes_vibrator ∷ es) fs = written-append es fs
written-append (closes fd ∷ es) fs = written-append es fs

pub closed_by-closes : (fds : List ℕ) → closed_by (map closes fds) ≡ fds
closed_by-closes [] = refl
closed_by-closes (fd ∷ fds) = ap (λ (x : List ℕ). fd ∷ x) (closed_by-closes fds)

pub written-closes : (fds : List ℕ) → written (map closes fds) ≡ []
written-closes [] = refl
written-closes (fd ∷ fds) = written-closes fds

-- Short vibrations.
abbrev pub shorts : ℕ → List ℕ
shorts zero = []
shorts (suc n) = vibration_short ∷ shorts n

pub shorts-snoc : (n : ℕ) → shorts n ++ (vibration_short ∷ []) ≡ shorts (suc n)
shorts-snoc zero = refl
shorts-snoc (suc n) = ap (λ (x : List ℕ). vibration_short ∷ x) (shorts-snoc n)

-- The short vibrations after some presses: two for the first, one for each of the next three.
abbrev pub heard : (vibrator : Bool) → ℕ → List ℕ
heard vibrator presses =
    if vibrator then (if ltb presses 5 then shorts (suc presses) else shorts 5) else []
