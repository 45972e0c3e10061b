-- ===== src/Fd/Scanned.antt =====
-- What `FileDescriptorTable::Create` does to the descriptors of the process.
use xposed.Prelude.{
  Bytes, ℤ, pos, pos_part, minus_one, eqb_ℤ, ℕ, ◌≡◌, ◌≢◌, ◌⊎◌, false, none, some, List, [], ◌∷◌,
  sym, ap, subst, ◌∙◌, inl, inr, true, some-injective, Bool-cases, Option-cases, refl,
}
use xposed.Fd.Directory.{IsMap-put, put-cases, put-other}
use xposed.Fd.Info.{Config, Info, socket_info, create_from_fd, detach, Call}
use xposed.Fd.Kernel.{Description, Kernel, IsKernel, view, perform_all}
use xposed.Fd.Remembered.{All, parse_fd-bounds}
use xposed.Fd.Restored.{Succeeds, dev_null, detach-Replaced}
use xposed.Fd.RoundTrip.{IsSettable, Observes, remembered, observed-create_from_fd}
use xposed.Fd.Table.{Entry, lookup, put, parse_fd, visit_fd, scan}
use xposed.Fd.Whole.{IsMap, if_false, perform_all-append, if_true}

sock_not_file : (fd : ℕ) (i : Info) → i ≡ socket_info fd → i.is_sock ≡ false → ⊥
sock_not_file fd i same file =
    let e : true ≡ false = sym (ap (λ (j : Info). j.is_sock) same) ∙ file in cc e

module _ (kernel : Kernel) (law : IsKernel kernel) (strtol : Bytes → ℤ × Bytes) (c : Config)
    (o_rdwr dir_fd n : ℕ) (s : kernel.State) where
  open kernel use {State, descriptor}

  -- The descriptor of an entry is in use, the calls of `Detach` succeed for it, and if it is
  -- remembered, it is a socket, or what the calls answer is what it holds, with no status flags of
  -- its own but such as `F_SETFL` can set.
  pub record IsListed (fd : ℕ) (e : Entry) : Type 0 where
    pub works : Succeeds e.outcomes n
    pub in_use : descriptor s fd ≢ none
    pub kind :
        (i : Info)
        → create_from_fd c fd e.file ≡ some i
        → (i ≡ socket_info fd)
          ⊎ ((file : Description) × (fd_flags : ℕ) × Observes c e.file file fd_flags
              × IsSettable kernel law file
              × (view kernel s fd ≡ some (file, fd_flags)))

  abbrev pub fd_of : Entry → ℤ
  fd_of e = parse_fd strtol e.d_name dir_fd

  abbrev pub IsOther : ℕ → Entry → Type 0
  IsOther fd e = eqb_ℤ (fd_of e) minus_one ≡ false → pos_part (fd_of e) ≢ fd

  -- The entries that `Create` looks at are listed, and each descriptor has one entry.
  unfoldable pub IsDirectory : List Entry → Type 0
  IsDirectory [] = Unit
  IsDirectory (e ∷ es) =
      (eqb_ℤ (fd_of e) minus_one ≡ false → IsListed (pos_part (fd_of e)) e)
      × All (IsOther (pos_part (fd_of e))) es
      × IsDirectory es

  -- What is known of an entry in the table: its descriptor is now /dev/null; it is a socket, or the file
  -- that the descriptor held.
  pub record IsClosed (t : State) (fd : ℕ) (i : Info) : Type 0 where
    pub same_fd : i.fd ≡ fd
    pub seekable : i.offset ≡ pos (pos_part i.offset)
    pub closed : view kernel t fd ≡ some (dev_null kernel law o_rdwr, 0)
    pub original :
        i.is_sock ≡ false
        → (file : Description) × (fd_flags : ℕ) × (i ≡ remembered fd file fd_flags)
          × IsSettable kernel law file
          × (view kernel s fd ≡ some (file, fd_flags))

  pub record Scanned (m : List (ℕ × Info)) (t : State) : Type 0 where
    pub free : descriptor t n ≡ none
    pub is_map : IsMap m
    pub no_dir : lookup dir_fd m ≡ none
    pub untouched : (fd : ℕ) → lookup fd m ≡ none → view kernel t fd ≡ view kernel s fd
    pub known : (fd : ℕ) (i : Info) → lookup fd m ≡ some i → IsClosed t fd i

  IsUnseen : List (ℕ × Info) → Entry → Type 0
  IsUnseen m e = eqb_ℤ (fd_of e) minus_one ≡ false → lookup (pos_part (fd_of e)) m ≡ none

  in_use-apart : (fd j : ℕ) → descriptor s fd ≢ none → descriptor s n ≡ none → j ≡ fd → j ≢ n
  in_use-apart fd j used free same =
      λ e. used (subst (λ (k : ℕ). descriptor s k ≡ none) (sym e ∙ same) free)

  info-facts :
      (fd : ℕ) (e : Entry) (i : Info)
      → IsListed fd e
      → create_from_fd c fd e.file ≡ some i
      → (i.fd ≡ fd)
        × (i.offset ≡ pos (pos_part i.offset))
        × (i.is_sock ≡ false
            → (file : Description) × (fd_flags : ℕ) × (i ≡ remembered fd file fd_flags)
              × IsSettable kernel law file
              × (view kernel s fd ≡ some (file, fd_flags)))
  info-facts fd e i listed made = elim (listed.kind i made) [
    | inl sock ↦
        (ap (λ (j : Info). j.fd) sock, rw sock, λ file. absurd (sock_not_file fd i sock file))
    | inr (file, fd_flags, seen_so, settable, there) ↦
        let same : i ≡ remembered fd file fd_flags =
          some-injective _ _
            (sym made ∙ observed-create_from_fd c fd fd_flags e.file file seen_so) in
        (ap (λ (j : Info). j.fd) same, rw same, λ no_sock. (file, fd_flags, same, settable, there))
  ]

  -- One descriptor is remembered and closed.
  put-Scanned :
      (fd : ℕ) (e : Entry) (i : Info) (m : List (ℕ × Info)) (t : State)
      → IsListed fd e
      → create_from_fd c fd e.file ≡ some i
      → lookup fd m ≡ none
      → fd ≢ dir_fd
      → descriptor s n ≡ none
      → Scanned m t
      → Scanned (put fd i m) (perform_all kernel n (detach o_rdwr e.outcomes i).1 t)
  put-Scanned fd e i m t listed made new not_dir free inv =
      let facts = info-facts fd e i listed made in
      let apart : i.fd ≢ n = in_use-apart fd i.fd listed.in_use free facts.0 in
      let away = detach-Replaced kernel law e.outcomes o_rdwr n i t listed.works inv.free apart in
      let others : (j : ℕ)
          → j ≢ fd
          → view kernel (perform_all kernel n (detach o_rdwr e.outcomes i).1 t) j
            ≡ view kernel t j =
        λ j other. away.others j (λ z. other (z ∙ facts.0)) in
      record {
        free = away.free;
        is_map = IsMap-put fd i m inv.is_map new;
        no_dir = elim (put-cases dir_fd fd i m) [
          | inl (same, _) ↦ absurd (not_dir (sym same))
          | inr (other, before) ↦ before ∙ inv.no_dir
        ];
        untouched = λ j unused. elim (put-cases j fd i m) [
          | inl (same, found) ↦ let z : some i ≡ none = sym found ∙ unused in absurd (cc z)
          | inr (other, before) ↦ others j other ∙ inv.untouched j (sym before ∙ unused)
        ];
        known = λ j x found. elim (put-cases j fd i m) [
          | inl (same, now) ↦
              let is_x : i ≡ x = some-injective _ _ (sym now ∙ found) in
              subst
                (λ (y : Info). IsClosed (perform_all kernel n (detach o_rdwr e.outcomes i).1 t) j y)
                is_x
                (subst
                  (λ (k : ℕ). IsClosed (perform_all kernel n (detach o_rdwr e.outcomes i).1 t) k i)
                  (sym same)
                  (record {
                    same_fd = facts.0;
                    seekable = facts.1;
                    closed =
                        subst
                          (λ (k : ℕ).
                            view kernel (perform_all kernel n (detach o_rdwr e.outcomes i).1 t) k
                            ≡ some (dev_null kernel law o_rdwr, 0))
                          facts.0 away.now;
                    original = facts.2;
                  }))
          | inr (other, before) ↦
              let old = inv.known j x (sym before ∙ found) in
              record {
                same_fd = old.same_fd;
                seekable = old.seekable;
                closed = others j other ∙ old.closed;
                original = old.original;
              }
        ];
      }

  All-IsUnseen :
      (fd : ℕ) (m m' : List (ℕ × Info))
      → ((j : ℕ) → j ≢ fd → lookup j m' ≡ lookup j m)
      → (es : List Entry) → All (IsOther fd) es
      → All (IsUnseen m) es
      → All (IsUnseen m') es
  unfolding All IsUnseen
  All-IsUnseen fd m m' same [] others unseen = tt
  All-IsUnseen fd m m' same (e ∷ es) (other, others) (new, unseen) = (
    λ looked_at. same _ (other looked_at) ∙ new looked_at,
    All-IsUnseen fd m m' same es others unseen,
  )

  visit_fd-Scanned :
      (fd : ℕ) (e : Entry) (m : List (ℕ × Info)) (cs : List Call)
      → IsListed fd e
      → lookup fd m ≡ none
      → fd ≢ dir_fd
      → descriptor s n ≡ none
      → Scanned m (perform_all kernel n cs s)
      → let r = visit_fd strtol c o_rdwr dir_fd fd e (m, cs) in
        Scanned r.0 (perform_all kernel n r.1 s) × ((j : ℕ) → j ≢ fd → lookup j r.0 ≡ lookup j m)
  unfolding visit_fd
  visit_fd-Scanned fd e m cs listed new not_dir free inv =
      elim (Option-cases (create_from_fd c fd e.file)) [
        | inl refused ↦ rw (refused, visit_fd) (inv, λ j other. refl)
        | inr (i, made) ↦
            rw (made, visit_fd)
              (
                subst (λ (t : State). Scanned (put fd i m) t)
                    (sym (perform_all-append kernel law n cs (detach o_rdwr e.outcomes i).1 s))
                    (put-Scanned fd e i m (perform_all kernel n cs s) listed made new not_dir free
                      inv),
                λ j other. put-other j fd i m other,
              )
      ]

  scan-Scanned :
      (es : List Entry) (m : List (ℕ × Info)) (cs : List Call)
      → IsDirectory es
      → All (IsUnseen m) es
      → descriptor s n ≡ none
      → Scanned m (perform_all kernel n cs s)
      → let r = scan strtol c o_rdwr dir_fd es (m, cs) in Scanned r.0 (perform_all kernel n r.1 s)
  unfolding IsDirectory All scan IsUnseen
  scan-Scanned [] m cs dir unseen free inv = inv
  scan-Scanned (e ∷ es) m cs (listed, distinct, dir) (new, unseen) free inv =
      let after_it = λ (acc : List (ℕ × Info) × List Call). scan strtol c o_rdwr dir_fd es acc in
      let holds = λ (r : List (ℕ × Info) × List Call). Scanned r.0 (perform_all kernel n r.1 s) in
      let fd = pos_part (fd_of e) in
      let r = visit_fd strtol c o_rdwr dir_fd fd e (m, cs) in
      elim (Bool-cases (eqb_ℤ (fd_of e) minus_one)) [
        | inl skipped ↦
            subst holds (ap after_it (if_true _ (m, cs) r skipped))
              (scan-Scanned es m cs dir unseen free inv)
        | inr looked_at ↦
            let not_dir = (parse_fd-bounds strtol c o_rdwr dir_fd e.d_name looked_at).1 in
            let (now, same) =
              visit_fd-Scanned fd e m cs (listed looked_at) (new looked_at) not_dir free inv in
            subst holds (ap after_it (if_false _ (m, cs) r looked_at))
              (scan-Scanned es r.0 r.1 dir (All-IsUnseen fd m r.0 same es distinct unseen) free now)
      ]

  nothing_seen : (es : List Entry) → All (IsUnseen []) es
  unfolding All IsUnseen lookup
  nothing_seen [] = tt
  nothing_seen (e ∷ es) = (λ h. refl, nothing_seen es)

  nothing-Scanned : descriptor s n ≡ none → Scanned [] s
  unfolding IsMap lookup
  nothing-Scanned free = record {
    free = free;
    is_map = tt;
    no_dir = refl;
    untouched = λ fd h. refl;
    known = λ fd i h. absurd (cc h);
  }

  pub all-Scanned :
      (es : List Entry)
      → IsDirectory es
      → descriptor s n ≡ none
      → let r = scan strtol c o_rdwr dir_fd es ([], []) in Scanned r.0 (perform_all kernel n r.1 s)
  unfolding perform_all
  all-Scanned es dir free = scan-Scanned es [] [] dir (nothing_seen es) free (nothing-Scanned free)
