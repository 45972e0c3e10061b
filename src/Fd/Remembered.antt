-- ===== src/Fd/Remembered.antt =====
-- What `FileDescriptorTable::Create` leaves.
use xposed.Prelude.{
  ◌==◌, if◌then◌else◌, Bytes, ℤ, ℕ, ◌<◌, ◌≡◌, refl, ap, ◌≢◌, some, List, [], ◌∷◌, ◌++◌, arith,
  pos_part, minus_one, eqb_ℤ, false,
}
use xposed.Fd.Info.{
  OpenFile, Config, Info, Call, open_call, set_fd_call, set_fl_call, lseek_call, dup2_call,
  close_call,
}
use xposed.Fd.Reopen.{replaced}
use xposed.Fd.Safety.{IsAllowed}
use xposed.Fd.Table.{lookup, put, parse_fd}

unfoldable pub All {ℓ κ} : {A : Type ℓ} → (A → Type κ) → List A → Type κ
All P [] = Unit
All P (x ∷ xs) = P x × All P xs

-- Neither a standard stream nor the directory that is being read, and allowed.
pub record IsRemembered (c : Config) (dir_fd : ℕ) (entry : ℕ × Info) : Type 0 where
  pub not_standard : 2 < entry.0
  pub not_dir : entry.0 ≢ dir_fd
  pub file : OpenFile
  pub allowed : IsAllowed c entry.0 file entry.1

-- The table has an information under this number, which is of this descriptor.
pub IsKnown : List (ℕ × Info) → ℕ → Type 0
IsKnown m fd = (i : Info) × (lookup fd m ≡ some i) × (i.fd ≡ fd)

pub lookup-put :
    (j fd : ℕ) (i : Info) (m : List (ℕ × Info))
    → lookup j (put fd i m) ≡ (if fd == j then some i else lookup j m)
unfolding lookup put
lookup-put j fd i [] = refl
lookup-put j fd i ((k, x) ∷ m) = ground (arith, lookup-put j fd i m)

pub replaced-append : (xs ys : List Call) → replaced (xs ++ ys) ≡ replaced xs ++ replaced ys
replaced-append [] ys = refl
replaced-append (open_call p f ∷ xs) ys = replaced-append xs ys
replaced-append (set_fd_call p f ∷ xs) ys = replaced-append xs ys
replaced-append (set_fl_call p f ∷ xs) ys = replaced-append xs ys
replaced-append (lseek_call p f ∷ xs) ys = replaced-append xs ys
replaced-append (dup2_call p f ∷ xs) ys = ap (λ (zs : List ℕ). f ∷ zs) (replaced-append xs ys)
replaced-append (close_call p ∷ xs) ys = replaced-append xs ys

Accumulated : Config → ℕ → List (ℕ × Info) × List Call → Type 0
Accumulated c dir_fd (m, cs) = All (IsRemembered c dir_fd) m × All (IsKnown m) (replaced cs)

module _ (strtol : Bytes → ℤ × Bytes) (c : Config) (o_rdwr : ℕ) (dir_fd : ℕ) where
  pub parse_fd-bounds :
      (d_name : Bytes)
      → eqb_ℤ (parse_fd strtol d_name dir_fd) minus_one ≡ false
      → (2 < pos_part (parse_fd strtol d_name dir_fd))
        × (pos_part (parse_fd strtol d_name dir_fd) ≢ dir_fd)
  unfolding parse_fd
  parse_fd-bounds d_name h = (ground arith, λ e. ground arith)
