-- ===== src/Fd/Reopen.antt =====
-- Which descriptors `Detach` and `Reopen` replace and close.
use xposed.Prelude.{
  if◌then◌else◌, minus_one, eqb_ℤ, ℕ, ◌≡◌, Bool, false, ◌&&◌, ◌||◌, some, List, [], ◌∷◌, arith,
}
use xposed.Fd.Info.{
  Info, Call, open_call, set_fd_call, set_fl_call, lseek_call, dup2_call, close_call, Outcomes,
  detach, restore, reopen,
}

-- The descriptors that calls of `dup2` replace, and those that are closed.
abbrev pub replaced : List Call → List ℕ
replaced [] = []
replaced (open_call p f ∷ cs) = replaced cs
replaced (set_fd_call n f ∷ cs) = replaced cs
replaced (set_fl_call n f ∷ cs) = replaced cs
replaced (lseek_call n o ∷ cs) = replaced cs
replaced (dup2_call n m ∷ cs) = m ∷ replaced cs
replaced (close_call n ∷ cs) = replaced cs

abbrev pub closed : List Call → List ℕ
closed [] = []
closed (open_call p f ∷ cs) = closed cs
closed (set_fd_call n f ∷ cs) = closed cs
closed (set_fl_call n f ∷ cs) = closed cs
closed (lseek_call n o ∷ cs) = closed cs
closed (dup2_call n m ∷ cs) = closed cs
closed (close_call n ∷ cs) = n ∷ closed cs

-- Whether the new file gets the flags and the offset of the old one.
unfoldable pub is_restored : Outcomes → Info → Bool
is_restored k i = k.set_fd && k.set_fl && (eqb_ℤ i.offset minus_one || k.seek)

-- `Reopen` of a file that can be opened closes the new descriptor once, whatever fails; it replaces
-- the old descriptor exactly if the flags and the offset could be set, and succeeds if `dup2` does
-- then.
pub reopen-closes :
    (k : Outcomes) (i : Info) (new_fd : ℕ)
    → i.is_sock ≡ false
    → k.open_file ≡ some new_fd
    → (closed (reopen k i).1 ≡ new_fd ∷ [])
      × (replaced (reopen k i).1 ≡ (if is_restored k i then i.fd ∷ [] else []))
      × ((reopen k i).0 ≡ (is_restored k i && k.dup2))
unfolding reopen is_restored restore
reopen-closes k i new_fd file opened = ground arith

-- `Detach` closes the descriptor that it opened exactly if `dup2` succeeds: otherwise it stays open.
pub detach-closes :
    (o_rdwr : ℕ) (k : Outcomes) (i : Info) (dev_null_fd : ℕ)
    → k.open_file ≡ some dev_null_fd
    → (closed (detach o_rdwr k i).1 ≡ (if k.dup2 then dev_null_fd ∷ [] else []))
      × (replaced (detach o_rdwr k i).1 ≡ i.fd ∷ [])
      × ((detach o_rdwr k i).0 ≡ (k.dup2 && k.close))
unfolding detach
detach-closes o_rdwr k i dev_null_fd opened = ground arith
