-- ===== src/Fd/Whole.antt =====
-- The whole table after a fork.
use xposed.Prelude.{
  if◌then◌else◌, Bool-cases, pos, pos_part, ℕ, ◌≡◌, refl, ◌≢◌, inl, inr, Option, none, some, List,
  [], ◌∷◌, ◌++◌, ◌==◌, sym, ap, subst, ◌∙◌, arith, Bool, true, false,
}
use xposed.Fd.Info.{Info, Outcomes, Call, reopen}
use xposed.Fd.Kernel.{Description, Kernel, IsKernel, view, perform_all}
use xposed.Fd.Reopened.{socket-reopen}
use xposed.Fd.Restored.{Succeeds, file_of, reopen-Replaced}
use xposed.Fd.Table.{lookup, reopen_all}

-- No descriptor stands in the table twice, as in the map of the program.
unfoldable pub IsMap : List (ℕ × Info) → Type 0
IsMap [] = Unit
IsMap ((fd, i) ∷ m) = (lookup fd m ≡ none) × IsMap m

-- The this_one is that of its descriptor, and a file has a position.
pub record IsEntry (n fd : ℕ) (i : Info) : Type 0 where
  pub same_fd : i.fd ≡ fd
  pub apart : fd ≢ n
  pub seekable : i.offset ≡ pos (pos_part i.offset)

unfoldable pub AllEntries : ℕ → List (ℕ × Info) → Type 0
AllEntries n [] = Unit
AllEntries n ((fd, i) ∷ m) = IsEntry n fd i × AllEntries n m

pub if_true : {A : Type 0} (b : Bool) (x y : A) → b ≡ true → x ≡ (if b then x else y)
if_true b x y h = rw h

pub if_false : {A : Type 0} (b : Bool) (x y : A) → b ≡ false → y ≡ (if b then x else y)
if_false b x y h = rw h

module _ (kernel : Kernel) (law : IsKernel kernel) where
  open kernel use {State, descriptor}

  pub perform_all-append :
      (n : ℕ) (cs ds : List Call) (s : State)
      → perform_all kernel n (cs ++ ds) s ≡ perform_all kernel n ds (perform_all kernel n cs s)
  unfolding perform_all
  perform_all-append n [] ds s = refl
  perform_all-append n (c ∷ cs) ds s = perform_all-append n cs ds (kernel.perform n c s)

  -- What is at a descriptor after the reopening, given its this_one and what was there.
  abbrev pub restored : Option Info → Option (Description × ℕ) → Option (Description × ℕ)
  restored none before = before
  restored (some i) before =
      if i.is_sock then before else some (file_of kernel law (pos_part i.offset) i, 0)

  one-restored :
      (k : Outcomes) (n fd : ℕ) (i : Info) (s : State)
      → Succeeds k n
      → IsEntry n fd i
      → descriptor s n ≡ none
      → let s' = perform_all kernel n (reopen k i).1 s in
        (descriptor s' n ≡ none)
        × (view kernel s' fd ≡ restored (some i) (view kernel s fd))
        × ((m : ℕ) → m ≢ fd → view kernel s' m ≡ view kernel s m)
  unfolding perform_all
  one-restored k n fd i s works this_one free = elim (Bool-cases i.is_sock) [
    | inl sock ↦
        let stays : perform_all kernel n (reopen k i).1 s ≡ s =
          ap (λ (cs : List Call). perform_all kernel n cs s) (socket-reopen k i sock) in
        (
          ap (λ (t : State). descriptor t n) stays ∙ free,
          ap (λ (t : State). view kernel t fd) stays ∙ if_true i.is_sock _ _ sock,
          λ m other. ap (λ (t : State). view kernel t m) stays,
        )
    | inr file ↦
        let back =
          reopen-Replaced kernel law k n (pos_part i.offset) i s works file this_one.seekable free
            (λ e. this_one.apart (sym this_one.same_fd ∙ e)) in
        (
          back.free,
          (subst
                (λ (j : ℕ).
                  view kernel (perform_all kernel n (reopen k i).1 s) j
                  ≡ some (file_of kernel law (pos_part i.offset) i, 0))
                this_one.same_fd back.now)
              ∙ if_false i.is_sock _ _ file,
          λ m other. back.others m (λ e. other (e ∙ this_one.same_fd)),
        )
  ]

  -- Where the calls succeed, the reopening after the fork opens every file of the table at its
  -- descriptor, with its path and position, its flags as far as `F_SETFL` can set them, and leaves the sockets and every descriptor that
  -- is not in the table as they are.
  pub reopen_all-restored :
      (k : ℕ → Outcomes) (n : ℕ) (m : List (ℕ × Info)) (s : State)
      → ((fd : ℕ) → Succeeds (k fd) n)
      → IsMap m
      → AllEntries n m
      → descriptor s n ≡ none
      → (fd : ℕ)
      → view kernel (perform_all kernel n (reopen_all k m) s) fd
        ≡ restored (lookup fd m) (view kernel s fd)
  unfolding reopen_all perform_all lookup IsMap AllEntries
  reopen_all-restored k n [] s works is_map the_rest free fd = refl
  reopen_all-restored k n ((key, i) ∷ m) s works (new, is_map) (this_one, the_rest) free fd =
      let s₁ = perform_all kernel n (reopen (k key) i).1 s in
      let (free₁, here, elsewhere) = one-restored (k key) n key i s (works key) this_one free in
      let split = perform_all-append n (reopen (k key) i).1 (reopen_all k m) s in
      let rest = reopen_all-restored k n m s₁ works is_map the_rest free₁ in
      ap (λ (t : State). view kernel t fd) split ∙ rest fd ∙ elim (Bool-cases (key == fd)) [
        | inl same ↦
            let e : key ≡ fd = ground arith in
            rw same (
              subst
                (λ (j : ℕ).
                  restored (lookup j m) (view kernel s₁ j) ≡ restored (some i) (view kernel s j))
                e (ap (λ o. restored o (view kernel s₁ key)) new ∙ here))
        | inr other ↦
            let ne : fd ≢ key = λ e. ground arith in
            rw other (ap (restored (lookup fd m)) (elsewhere fd ne))
      ]
