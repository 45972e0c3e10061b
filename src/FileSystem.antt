-- ===== src/FileSystem.antt =====
-- The system and library calls on files that the services make. They are not in this repository:
-- a `FileSystem` is what they answer at one moment, and a parameter of all that uses it.
use xposed.Prelude.{ℕ, ◌≡◌, Bool, Option, none, Bytes, length, take, drop, ltb, refl, ◌⊎◌, inl, inr}
use xposed.Membased.Shared.{Stat}

-- A call fails with a value of `errno`.
pub data Sys {ℓ} (A : Type ℓ) : Type ℓ where
  done : A → Sys A
  fails : ℕ → Sys A

pub Sys-cases {ℓ} : {A : Type ℓ} (s : Sys A) → ((a : A) × (s ≡ done a)) ⊎ ((n : ℕ) × (s ≡ fails n))
Sys-cases (done a) = inl (a, refl)
Sys-cases (fails n) = inr (n, refl)

-- What `fread`, `ferror` and `feof` report for one read.
pub record ReadReport : Type 0 where
  pub bytes : Bytes
  pub ferror : ℕ
  pub feof : Bool

-- An open stream: `seek p` is `none` if the `fseek` to `p` succeeds and the value of `ferror`
-- after it otherwise; `read p n` is a read of `n` bytes at position `p`.
pub record Stream : Type 0 where
  pub seek : ℕ → Option ℕ
  pub read : ℕ → ℕ → ReadReport

pub record FileSystem : Type 0 where
  pub access : Bytes → ℕ → Sys (Unit {0})
  -- The same for the negative mode `-1 - n`.
  pub access_negative : Bytes → ℕ → Sys (Unit {0})
  pub stat : Bytes → Sys Stat
  pub fopen : Bytes → Sys Stream

-- The documented behaviour of a stream on a regular file with these contents: a seek within the
-- file succeeds, a read takes what is there, and the end is noticed by a read that comes up short.
pub record IsRegular (f : Stream) (contents : Bytes) : Type 0 where
  pub seeks : (p : ℕ) → f.seek p ≡ none
  pub reads :
      (p n : ℕ)
      → f.read p n ≡ record {
        bytes = take n (drop p contents);
        ferror = 0;
        feof = ltb (length (drop p contents)) n;
      }

-- A regular file behaves so.
abbrev pub regular : Bytes → Stream
regular contents = record {
  seek = λ p. none;
  read = λ p n. record {
    bytes = take n (drop p contents);
    ferror = 0;
    feof = ltb (length (drop p contents)) n;
  };
}
