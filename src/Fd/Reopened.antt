-- ===== src/Fd/Reopened.antt =====
-- What `Reopen` does to the whole table.
use xposed.Prelude.{
  if◌then◌else◌, Bool-cases, keep_map, ℕ, ◌≡◌, refl, inl, inr, true, Option, none, some, List, [],
  ◌∷◌, arith,
}
use xposed.Fd.Info.{Info, Outcomes, reopen}
use xposed.Fd.Remembered.{replaced-append}
use xposed.Fd.Reopen.{replaced, is_restored, reopen-closes}
use xposed.Fd.Table.{reopen_all}

-- Every call for a descriptor succeeds, and gives some new descriptor.
pub record Works (k : Outcomes) : Type 0 where
  pub new_fd : ℕ
  pub opens : k.open_file ≡ some new_fd
  pub sets_fd : k.set_fd ≡ true
  pub sets_fl : k.set_fl ≡ true
  pub seeks : k.seek ≡ true

-- A file is replaced, a socket is not.
abbrev pub file_fd : ℕ × Info → Option ℕ
file_fd (fd, i) = if i.is_sock then none else some i.fd

pub socket-reopen : (k : Outcomes) (i : Info) → i.is_sock ≡ true → (reopen k i).1 ≡ []
unfolding reopen
socket-reopen k i h = rw (reopen, h)

Works-is_restored : (k : Outcomes) (i : Info) → Works k → is_restored k i ≡ true
unfolding is_restored
Works-is_restored k i w = ground (arith, w.sets_fd, w.sets_fl, w.seeks)

-- Where the calls succeed, `Reopen` replaces exactly the descriptors of the files in the table, each
-- once and in the table's order, by newly opened ones, and leaves the sockets as they are.
reopen_all-replaced :
    (k : ℕ → Outcomes) (m : List (ℕ × Info))
    → ((fd : ℕ) → Works (k fd))
    → replaced (reopen_all k m) ≡ keep_map file_fd m
unfolding reopen_all
reopen_all-replaced k [] works = refl
reopen_all-replaced k ((fd, i) ∷ m) works = elim (Bool-cases i.is_sock) [
  | inl sock ↦ rw (socket-reopen (k fd) i sock, sock) (reopen_all-replaced k m works)
  | inr file ↦
      let one = (reopen-closes (k fd) i (works fd).new_fd file (works fd).opens).1 in
      rw (
        replaced-append (reopen (k fd) i).1 (reopen_all k m),
        one,
        Works-is_restored (k fd) i (works fd),
        reopen_all-replaced k m works,
        file,
      )
]
