-- ===== src/Safemode/Presses.antt =====
-- What is pressed in the rounds of `detectSafemodeTrigger`.
use xposed.Prelude.{
  length, take, is_positive, ℕ, ◌+◌, ◌≤◌, ◌≡◌, true, Option, none, some, List, [], ◌∷◌, ◌++◌,
}
use xposed.Safemode.Defs.{KeyCodes, Timespec, get_remaining_time}
use xposed.Safemode.Detect.{Reading, Round, pressed_code}

module _ (k : KeyCodes) where
  -- The presses in a batch of events, in their order.
  unfoldable pub presses : List Reading → List ℕ
  presses [] = []
  presses (r ∷ rs) = elim (pressed_code k r) [ none ↦ presses rs | some code ↦ code ∷ presses rs ]

  abbrev pub polled_presses : Option (List Reading) → List ℕ
  polled_presses none = []
  polled_presses (some readings) = presses readings

  -- The presses in all rounds.
  unfoldable pub all_presses : List Round → List ℕ
  all_presses [] = []
  all_presses (r ∷ rs) = polled_presses r.polled ++ all_presses rs

-- Every press is one of this key.
unfoldable pub AllAre : ℕ → List ℕ → Type 0
AllAre key [] = Unit
AllAre key (x ∷ xs) = (key ≡ x) × AllAre key xs

-- In every round there is time left, and the wait for events does not fail.
unfoldable pub AllTimely : Timespec → List Round → Type 0
AllTimely expiration [] = Unit
AllTimely expiration (r ∷ rs) =
    (is_positive (get_remaining_time r.now expiration) ≡ true)
    × ((readings : List Reading) × (r.polled ≡ some readings))
    × AllTimely expiration rs

-- With `count` presses up to now, some of the first rounds bring the presses to five, all of the
-- same key and in time.
pub record Repeated (k : KeyCodes) (key : ℕ) (expiration : Timespec) (count : ℕ)
    (rounds : List Round) : Type 0 where
  pub used : ℕ
  pub timely : AllTimely expiration (take used rounds)
  pub same_key : AllAre key (all_presses k (take used rounds))
  pub enough : 5 ≤ count + length (all_presses k (take used rounds))

pub AllAre-append :
    (key : ℕ) (xs ys : List ℕ) → AllAre key xs → AllAre key ys → AllAre key (xs ++ ys)
unfolding AllAre
AllAre-append key [] ys p q = q
AllAre-append key (x ∷ xs) ys p q = (p.0, AllAre-append key xs ys p.1 q)

pub AllAre-parts :
    (key : ℕ) (xs ys : List ℕ) → AllAre key (xs ++ ys) → AllAre key xs × AllAre key ys
unfolding AllAre
AllAre-parts key [] ys p = (tt, p)
AllAre-parts key (x ∷ xs) ys p = let (q, r) = AllAre-parts key xs ys p.1 in ((p.0, q), r)
