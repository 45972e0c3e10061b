-- ===== src/Run.antt =====
-- The outcome of C code that may touch memory wrongly or loop: it runs out of the fuel that the
-- model gives it, commits a fault (a write outside its block, a null pointer, a signed overflow),
-- or returns.
use xposed.Prelude.{
  leb, Bytes, length, take, drop, ℤ, pos, negsuc, ℕ, ◌+◌, ◌^◌, ◌≡◌, Bool, true, false, Option, none,
  some, ◌++◌, leb-of_le, length-append, drop-add, take-append, drop-append, arith, leb-of_lt, ◌<◌,
}

pub data Run {ℓ} (A : Type ℓ) : Type ℓ where
  out_of_fuel : Run A
  fault : Run A
  returned : A → Run A

infixl 5 ◌>>=◌ ◌>>◌
abbrev pub ◌>>=◌ {ℓ κ} : {A : Type ℓ} {B : Type κ} → Run A → (A → Run B) → Run B
out_of_fuel >>= f = out_of_fuel
fault >>= f = fault
returned a >>= f = f a

abbrev pub ◌>>◌ {ℓ κ} : {A : Type ℓ} {B : Type κ} → Run A → Run B → Run B
m >> k = m >>= λ _. k

-- A fault unless the condition holds.
abbrev pub require : Bool → Run (Unit {0})
require true = returned tt
require false = fault

-- Following a pointer that may be null.
abbrev pub non_null {ℓ} : {A : Type ℓ} → Option A → Run A
non_null none = fault
non_null (some a) = returned a

-- An `int` that is used as a size.
abbrev pub non_negative : ℤ → Run ℕ
non_negative (pos n) = returned n
non_negative (negsuc n) = fault

-- The largest `int` is below this.
abbrev pub int_limit : ℕ
int_limit = 2 ^ 31

-- `memcpy(block + at, source, length of source)`: a fault if it does not fit into the block.
unfoldable pub memcpy : ℕ → Bytes → Bytes → Run Bytes
memcpy at source block = do
  require (leb (at + length source) (length block))
  returned (take at block ++ (source ++ drop (at + length source) block))

-- What a copy behind a known prefix gives.
pub memcpy-append :
    (a s t u : Bytes)
    → length t ≡ length s
    → memcpy (length a) s (a ++ (t ++ u)) ≡ returned (a ++ (s ++ u))
unfolding memcpy
memcpy-append a s t u h = rw (
  leb-of_le (length a + length s) (length (a ++ (t ++ u)))
      (omega (arith, length-append {0} a (t ++ u), length-append {0} t u)),
  take-append a (t ++ u),
  ← drop-add (length a) (length s) (a ++ (t ++ u)),
  drop-append a (t ++ u),
  ← h,
  drop-append t u,
)

-- A copy that does not fit.
pub memcpy-fault :
    (at : ℕ) (source block : Bytes)
    → length block < at + length source
    → memcpy at source block ≡ fault
unfolding memcpy
memcpy-fault at source block h = rw (leb-of_lt _ _ h)
