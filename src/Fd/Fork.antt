-- ===== src/Fd/Fork.antt =====
-- `FileDescriptorTable` around a fork: `Create` before it and `Reopen` after it.
use xposed.Prelude.{
  Bytes, ℤ, ℕ, ◌≡◌, ◌≢◌, true, none, some, List, [], false, pos_part, sym, ap, ◌∙◌, Option,
}
use xposed.Fd.Directory.{AllEntries-lookup}
use xposed.Fd.Info.{Config, Info, close_call, Outcomes}
use xposed.Fd.Kernel.{Kernel, IsKernel, view, perform_all, Description}
use xposed.Fd.Restored.{frame-view, Succeeds, dev_null, file_of}
use xposed.Fd.RoundTrip.{file_of-remembered, view-apart}
use xposed.Fd.Scanned.{IsDirectory, all-Scanned, Scanned}
use xposed.Fd.Table.{Entry, lookup, scan, create, reopen_all}
use xposed.Fd.Whole.{reopen_all-restored, AllEntries, if_true, if_false, restored}

ne_some : (i : Info) → none ≡ some i → ⊥
ne_some i h = cc h

module _ (kernel : Kernel) (law : IsKernel kernel) (strtol : Bytes → ℤ × Bytes) (c : Config)
    (o_rdwr dir_fd n : ℕ) (s : kernel.State) where
  open kernel use {State, descriptor, perform}

  -- The table that `Create` returns, and the state in which it leaves the process once the directory
  -- is closed.
  abbrev pub table_of : List Entry → List (ℕ × Info)
  table_of es = (scan strtol c o_rdwr dir_fd es ([], [])).0

  unfoldable pub after_create : List Entry → State
  after_create es =
      perform n (close_call dir_fd)
        (perform_all kernel n (create strtol c o_rdwr (some (dir_fd, es)) true).calls s)

  closed-view :
      (t : State) (fd : ℕ)
      → fd ≢ dir_fd
      → view kernel (perform n (close_call dir_fd) t) fd ≡ view kernel t fd
  closed-view t fd other =
      let (gone, same, files) = law.closes n dir_fd t in
      frame-view kernel law t _ fd (same fd other) (λ d there. files d.description)

  known-AllEntries :
      (m : List (ℕ × Info)) (t : State) (n₂ : ℕ)
      → Scanned kernel law strtol c o_rdwr dir_fd n s m t
      → descriptor (perform n (close_call dir_fd) t) n₂ ≡ none
      → AllEntries n₂ m
  known-AllEntries m t n₂ inv free = AllEntries-lookup n₂ m inv.is_map (λ fd i found.
      let known = inv.known fd i found in
      let not_dir : fd ≢ dir_fd =
        λ e. ne_some i (sym inv.no_dir ∙ ap (λ (j : ℕ). lookup j m) (sym e) ∙ found) in
      record {
        same_fd = known.same_fd;
        seekable = known.seekable;
        apart =
            view-apart kernel law (perform n (close_call dir_fd) t) fd n₂ _
              (closed-view t fd not_dir ∙ known.closed) free;
      })

  -- Before the fork and after it.
  pub record IsKept (m : List (ℕ × Info)) (s₁ s₂ : State) (fd : ℕ) : Type 0 where
    pub not_remembered :
        lookup fd m ≡ none
        → (view kernel s₁ fd ≡ view kernel s fd) × (view kernel s₂ fd ≡ view kernel s fd)
    pub closed :
        (i : Info) → lookup fd m ≡ some i → view kernel s₁ fd ≡ some (dev_null kernel law o_rdwr, 0)
    pub socket_closed :
        (i : Info)
        → lookup fd m ≡ some i
        → i.is_sock ≡ true
        → view kernel s₂ fd ≡ some (dev_null kernel law o_rdwr, 0)
    pub file_restored :
        (i : Info)
        → lookup fd m ≡ some i
        → i.is_sock ≡ false
        → (file : Description) × (fd_flags : ℕ) × (view kernel s fd ≡ some (file, fd_flags))
          × (view kernel s₂ fd ≡ some (file, 0))

  -- The table is created before a fork and reopened in a process that has the descriptors as `Create`
  -- and the closing of the directory left them. The calls succeed, the descriptor that `open` gives is
  -- free each time, and the directory lists each descriptor once and truly. The status flags of a
  -- remembered file, but for those that `F_SETFL` can set, are those of each new file. Then every
  -- remembered file is away in between and comes back at its descriptor, with its path, flags and
  -- position, but without the descriptor's own flags; every remembered socket becomes /dev/null and
  -- stays so; and every other descriptor, but the directory's, is what it was throughout.
  pub create-reopen_all :
      (es : List Entry) (k : ℕ → Outcomes) (n₂ : ℕ)
      → IsDirectory kernel law strtol c o_rdwr dir_fd n s es
      → descriptor s n ≡ none
      → ((fd : ℕ) → Succeeds (k fd) n₂)
      → descriptor (after_create es) n₂ ≡ none
      → (fd : ℕ) → fd ≢ dir_fd
      → IsKept
          (table_of es)
          (after_create es)
          (perform_all kernel n₂ (reopen_all k (table_of es)) (after_create es))
          fd
  unfolding after_create create
  create-reopen_all es k n₂ dir free works free₂ fd other =
      let t = perform_all kernel n (scan strtol c o_rdwr dir_fd es ([], [])).1 s in
      let inv = all-Scanned kernel law strtol c o_rdwr dir_fd n s es dir free in
      let s₁ = perform n (close_call dir_fd) t in
      let same = closed-view t fd other in
      let back =
        reopen_all-restored kernel law k n₂ (table_of es) s₁ works inv.is_map
          (known-AllEntries (table_of es) t n₂ inv free₂) free₂ fd in
      let shown = λ (o : Option Info). restored kernel law o (view kernel s₁ fd) in
      record {
        not_remembered = λ unused. (
          same ∙ inv.untouched fd unused,
          back ∙ ap shown unused ∙ same ∙ inv.untouched fd unused,
        );
        closed = λ i found. same ∙ (inv.known fd i found).closed;
        socket_closed = λ i found sock.
            back
            ∙ ap shown found
            ∙ sym (if_true i.is_sock (view kernel s₁ fd) _ sock)
            ∙ same
            ∙ (inv.known fd i found).closed;
        file_restored = λ i found no_sock.
            let (file, fd_flags, is_file, settable, there) =
              (inv.known fd i found).original no_sock in
            (
              file,
              fd_flags,
              there,
              back
                  ∙ ap shown found
                  ∙ sym (if_false i.is_sock (view kernel s₁ fd) _ no_sock)
                  ∙ ap (λ (j : Info). some (file_of kernel law (pos_part j.offset) j, 0)) is_file
                  ∙ ap (λ (f : Description). some (f, 0))
                      (file_of-remembered kernel law file fd fd_flags settable),
            );
      }
