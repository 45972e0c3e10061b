-- ===== src/Fd/Table.antt =====
-- fd_utils-inl.h, lines 333-402: the table of the zygote's descriptors. `strtol` is a parameter: the
-- number as an `int`, and the text behind it.
use xposed.Prelude.{
  leb, ◌==◌, if◌then◌else◌, Bytes, length, ℤ, pos_part, minus_one, is_positive, eqb_ℤ, ℕ, Bool, not,
  ◌||◌, Option, none, some, List, [], ◌∷◌, ◌++◌,
}
use xposed.Fd.Info.{OpenFile, Config, Info, create_from_fd, Call, Outcomes, detach, reopen}

-- The text of a directory entry, what the descriptor's calls answer, and the calls of `Detach`.
pub record Entry : Type 0 where
  pub d_name : Bytes
  pub file : OpenFile
  pub outcomes : Outcomes

-- The table, unless an error occurred, and the calls made.
pub record Created : Type 0 where
  pub open_fd_map : Option (List (ℕ × Info))
  pub calls : List Call

unfoldable pub lookup : ℕ → List (ℕ × Info) → Option Info
lookup fd [] = none
lookup fd ((k, i) ∷ m) = if k == fd then some i else lookup fd m

-- `open_fd_map[fd] = info`.
unfoldable pub put : ℕ → Info → List (ℕ × Info) → List (ℕ × Info)
put fd i [] = (fd, i) ∷ []
put fd i ((k, j) ∷ m) = if k == fd then (fd, i) ∷ m else (k, j) ∷ put fd i m

module _ (strtol : Bytes → ℤ × Bytes) where
  unfoldable pub parse_fd : Bytes → (dir_fd : ℕ) → ℤ
  parse_fd d_name dir_fd =
      let fd = (strtol d_name).0 in
      if not (length (strtol d_name).1 == 0)
      then minus_one
      else if not (is_positive fd) || leb (pos_part fd) 2 || (pos_part fd == dir_fd)
      then minus_one
      else fd

  module _ (c : Config) (o_rdwr : ℕ) (dir_fd : ℕ) where
    -- The body of the loop, for an entry with this descriptor.
    unfoldable pub visit_fd : ℕ → Entry → List (ℕ × Info) × List Call → List (ℕ × Info) × List Call
    visit_fd fd e (m, calls) = elim (create_from_fd c fd e.file) [
      | none ↦ (m, calls)
      | some info ↦ (put fd info m, calls ++ (detach o_rdwr e.outcomes info).1)
    ]

    unfoldable pub scan : List Entry → List (ℕ × Info) × List Call → List (ℕ × Info) × List Call
    scan [] acc = acc
    scan (e ∷ es) acc =
        let fd = parse_fd e.d_name dir_fd in
        scan es (if eqb_ℤ fd minus_one then acc else visit_fd (pos_part fd) e acc)

  -- `Create`, given the descriptor and the entries of the directory, and whether `closedir` succeeds.
  unfoldable pub create : Config → ℕ → Option (ℕ × List Entry) → (closed_dir : Bool) → Created
  create c o_rdwr none closed_dir = record { open_fd_map = none; calls = [] }
  create c o_rdwr (some (dir_fd, entries)) closed_dir =
      let r = scan c o_rdwr dir_fd entries ([], []) in
      record { open_fd_map = if closed_dir then some r.0 else none; calls = r.1 }

-- `Reopen` of the whole table, with the calls' outcomes for each descriptor.
unfoldable pub reopen_all : (ℕ → Outcomes) → List (ℕ × Info) → List Call
reopen_all k [] = []
reopen_all k ((fd, info) ∷ m) = (reopen (k fd) info).1 ++ reopen_all k m
