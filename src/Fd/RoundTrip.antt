-- ===== src/Fd/RoundTrip.antt =====
-- A file across a fork: what `createFromFd` learns, what `Detach` leaves, and what `Reopen` makes of it.
use xposed.Prelude.{
  pos, ℕ, ◌-◌, bit_and, ◌≡◌, refl, sym, ap, subst, ◌∙◌, ◌≢◌, true, false, none, some,
}
use xposed.Fd.Info.{
  Info, Kind, OpenFile, Config, is_whitelisted, is_reopenable, is_socket, file_info, create_from_fd,
  Outcomes, detach, reopen,
}
use xposed.Fd.Kernel.{set_status, Description, Kernel, IsKernel, seen, view, perform_all}
use xposed.Fd.Restored.{file_of, Succeeds, dev_null, reopen-Replaced, detach-Replaced}
use xposed.FileSystem.{done}

-- What the calls on a descriptor answer if it holds this file, which can be opened again.
pub record Observes (c : Config) (o : OpenFile) (file : Description) (fd_flags : ℕ) : Type 0 where
  pub kind : Kind
  pub stated : o.fstat ≡ done kind
  pub no_socket : is_socket kind ≡ false
  pub reopenable : is_reopenable kind ≡ true
  pub linked : o.readlink ≡ done file.path
  pub whitelisted : is_whitelisted file.path ≡ true
  pub fd_flags_are : o.get_fd ≡ done fd_flags
  pub status : ℕ
  pub status_is : o.get_fl ≡ done status
  pub open_part : bit_and status c.k_open_flags ≡ file.open_flags
  pub other_part : status - bit_and status c.k_open_flags ≡ file.status_flags
  pub position_is : o.lseek ≡ done file.position

abbrev pub remembered : ℕ → Description → ℕ → Info
remembered fd file fd_flags = record {
  fd = fd;
  file_path = file.path;
  open_flags = file.open_flags;
  fd_flags = fd_flags;
  fs_flags = file.status_flags;
  offset = pos file.position;
  is_sock = false;
}

pub observed-create_from_fd :
    (c : Config) (fd fd_flags : ℕ) (o : OpenFile) (file : Description)
    → Observes c o file fd_flags
    → create_from_fd c fd o ≡ some (remembered fd file fd_flags)
unfolding create_from_fd file_info
observed-create_from_fd c fd fd_flags o file h = rw (
  create_from_fd, h.stated, h.no_socket, h.linked, h.whitelisted, h.reopenable, file_info,
  h.fd_flags_are, h.status_is, h.other_part, h.open_part, h.position_is,
)

with_flags : Description → ℕ → Description
with_flags file status = record file { status_flags = status }

module _ (kernel : Kernel) (law : IsKernel kernel) where
  open kernel use {State, descriptor}

  -- But for the flags that `F_SETFL` can set, the file has those of each new file.
  abbrev pub IsSettable : Description → Type 0
  IsSettable file = set_status kernel.settable file.status_flags kernel.initial ≡ file.status_flags

  pub file_of-remembered :
      (file : Description) (fd fd_flags : ℕ)
      → IsSettable file
      → file_of kernel law file.position (remembered fd file fd_flags) ≡ file
  unfolding with_flags
  file_of-remembered file fd fd_flags h = ap (with_flags file) h

  -- A descriptor that holds a file is not the one that is free.
  pub view-apart :
      (s : State) (fd n : ℕ) (x : Description × ℕ)
      → view kernel s fd ≡ some x
      → descriptor s n ≡ none
      → fd ≢ n
  unfolding view
  view-apart s fd n x there free = λ e.
      none_there
        (sym there ∙ ap (seen kernel s) (subst (λ (j : ℕ). descriptor s j ≡ none) (sym e) free))
    where
      none_there : some x ≡ none → ⊥
      none_there h = cc h

  -- Where the calls succeed, a whitelisted file that can be opened again, has a position and no status
  -- flags of its own but such as `F_SETFL` can set comes back
  -- at its descriptor: the same path, flags and position, while between `Detach` and `Reopen` the
  -- descriptor is /dev/null, and every other descriptor stays what it was throughout. The
  -- descriptor's own flags do not come back: `Reopen` sets them for the descriptor that it closes
  -- again, and `dup2` clears them, so that close-on-exec is lost.
  detach-reopen :
      (c : Config) (o_rdwr fd fd_flags n₁ n₂ : ℕ) (k₁ k₂ : Outcomes) (o : OpenFile)
      (file : Description) (s : State)
      → view kernel s fd ≡ some (file, fd_flags)
      → Observes c o file fd_flags
      → IsSettable file
      → Succeeds k₁ n₁
      → Succeeds k₂ n₂
      → descriptor s n₁ ≡ none
      → descriptor (perform_all kernel n₁ (detach o_rdwr k₁ (remembered fd file fd_flags)).1 s) n₂
        ≡ none
      → let i = remembered fd file fd_flags in
        let s₁ = perform_all kernel n₁ (detach o_rdwr k₁ i).1 s in
        let s₂ = perform_all kernel n₂ (reopen k₂ i).1 s₁ in
        (create_from_fd c fd o ≡ some i)
        × (view kernel s₁ fd ≡ some (dev_null kernel law o_rdwr, 0))
        × (view kernel s₂ fd ≡ some (file, 0))
        × ((m : ℕ)
            → m ≢ fd
            → (view kernel s₁ m ≡ view kernel s m) × (view kernel s₂ m ≡ view kernel s m))
  detach-reopen c o_rdwr fd fd_flags n₁ n₂ k₁ k₂ o file s there seen_so settable works₁ works₂ free₁
        free₂ =
      let i = remembered fd file fd_flags in
      let s₁ = perform_all kernel n₁ (detach o_rdwr k₁ i).1 s in
      let away =
        detach-Replaced kernel law k₁ o_rdwr n₁ i s works₁ free₁
          (view-apart s fd n₁ _ there free₁) in
      let back =
        reopen-Replaced kernel law k₂ n₂ file.position i s₁ works₂ refl refl free₂
          (view-apart s₁ fd n₂ _ away.now free₂) in
      (
        observed-create_from_fd c fd fd_flags o file seen_so,
        away.now,
        back.now
            ∙ ap (λ (f : Description). some (f, 0)) (file_of-remembered file fd fd_flags settable),
        λ m other. (away.others m other, back.others m other ∙ away.others m other),
      )
