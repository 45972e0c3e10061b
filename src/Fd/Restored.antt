-- ===== src/Fd/Restored.antt =====
-- What `Detach` and `Reopen` do to the descriptors of the process.
use xposed.Prelude.{
  Option-cases, Bytes, pos, ℕ, ◌≡◌, sym, ap, ◌∙◌, ◌≢◌, inl, inr, none, some, ◌==◌, Bool-cases,
  bytes_of, subst, true, false, [], ◌∷◌, arith,
}
use xposed.Fd.Info.{
  open_call, set_fd_call, set_fl_call, lseek_call, dup2_call, close_call, Info, Outcomes, detach,
  restore, reopen,
}
use xposed.Fd.Kernel.{
  set_status, Description, Descriptor, Kernel, SameBut, SameFilesBut, IsFresh, IsKernel, seen, view,
  perform_all,
}

eq-of_test : (n m : ℕ) → (m == n) ≡ true → n ≡ m
eq-of_test n m h = ground arith

ne-of_test : (m n : ℕ) → (m == n) ≡ false → m ≢ n
ne-of_test m n h = λ e. ground arith

-- Every call succeeds, and `open` gives the descriptor `n`.
pub record Succeeds (k : Outcomes) (n : ℕ) : Type 0 where
  pub opened : k.open_file ≡ some n
  pub set_fd_done : k.set_fd ≡ true
  pub set_fl_done : k.set_fl ≡ true
  pub seek_done : k.seek ≡ true
  pub dup2_done : k.dup2 ≡ true

-- The calls of `Reopen` for a file.
reopen-calls :
    (k : Outcomes) (n position : ℕ) (i : Info)
    → Succeeds k n
    → i.is_sock ≡ false
    → i.offset ≡ pos position
    → (reopen k i).1
      ≡ open_call i.file_path i.open_flags
        ∷ set_fd_call n i.fd_flags
        ∷ set_fl_call n i.fs_flags
        ∷ lseek_call n (pos position)
        ∷ dup2_call n i.fd
        ∷ close_call n
        ∷ []
unfolding reopen restore
reopen-calls k n position i w file seekable =
    ground (arith, w.opened, w.set_fd_done, w.set_fl_done, w.seek_done)

detach-calls :
    (o_rdwr : ℕ) (k : Outcomes) (n : ℕ) (i : Info)
    → Succeeds k n
    → (detach o_rdwr k i).1
      ≡ open_call (bytes_of "/dev/null") o_rdwr ∷ dup2_call n i.fd ∷ close_call n ∷ []
unfolding detach
detach-calls o_rdwr k n i w = rw (detach, w.opened, w.dup2_done)

module _ (kernel : Kernel) (law : IsKernel kernel) where
  open kernel use {State, descriptor, described, perform}
  open law use {opens, sets_fd, sets_fl, seeks, dups, closes}

  -- A new descriptor `n` holds a file that none had before, and nothing else has changed.
  record Prepared (n : ℕ) (file : Description) (s s' : State) : Type 0 where
    pub id : ℕ
    pub flags : ℕ
    pub fresh : IsFresh kernel id s
    pub there : descriptor s' n ≡ some (record { description = id; fd_flags = flags })
    pub file_is : described s' id ≡ file
    pub same : SameBut kernel n s s'
    pub same_files : SameFilesBut kernel id s s'

  -- The descriptor `fd` holds this file, all others are what they were, and `n` is free again.
  pub record Replaced (n fd : ℕ) (file : Description) (s s' : State) : Type 0 where
    pub now : view kernel s' fd ≡ some (file, 0)
    pub others : (m : ℕ) → m ≢ fd → view kernel s' m ≡ view kernel s m
    pub free : descriptor s' n ≡ none

  opened-Prepared :
      (n : ℕ) (path : Bytes) (flags : ℕ) (s : State)
      → descriptor s n ≡ none
      → Prepared n
          (record { path = path; open_flags = flags; status_flags = kernel.initial; position = 0 })
          s
          (perform n (open_call path flags) s)
  opened-Prepared n path flags s free =
      let o = opens n path flags s free in
      record {
        id = o.id;
        flags = 0;
        fresh = o.fresh;
        there = o.there;
        file_is = o.file;
        same = o.same;
        same_files = o.same_files;
      }

  set_fd-Prepared :
      (k n flags : ℕ) (file : Description) (s s' : State)
      → Prepared n file s s'
      → Prepared n file s (perform k (set_fd_call n flags) s')
  set_fd-Prepared k n flags file s s' p =
      let (there, same, files) = sets_fd k n flags s' _ p.there in
      record {
        id = p.id;
        flags = flags;
        fresh = p.fresh;
        there = there;
        file_is = files p.id ∙ p.file_is;
        same = λ m other. same m other ∙ p.same m other;
        same_files = λ j other. files j ∙ p.same_files j other;
      }

  set_fl-Prepared :
      (k n flags : ℕ) (file : Description) (s s' : State)
      → Prepared n file s s'
      → Prepared n
          (record file { status_flags = set_status kernel.settable flags file.status_flags })
          s
          (perform k (set_fl_call n flags) s')
  set_fl-Prepared k n flags file s s' p =
      let (same, changed, files) = sets_fl k n flags s' _ p.there in
      record {
        id = p.id;
        flags = p.flags;
        fresh = p.fresh;
        there = same n ∙ p.there;
        file_is =
            changed
            ∙ ap
                (λ (d : Description). record d {
                  status_flags = set_status kernel.settable flags d.status_flags;
                })
                p.file_is;
        same = λ m other. same m ∙ p.same m other;
        same_files = λ j other. files j other ∙ p.same_files j other;
      }

  seek-Prepared :
      (k n position : ℕ) (file : Description) (s s' : State)
      → Prepared n file s s'
      → Prepared n
          (record file { position = position })
          s
          (perform k (lseek_call n (pos position)) s')
  seek-Prepared k n position file s s' p =
      let (same, changed, files) = seeks k n position s' _ p.there in
      record {
        id = p.id;
        flags = p.flags;
        fresh = p.fresh;
        there = same n ∙ p.there;
        file_is = changed ∙ ap (λ (d : Description). record d { position = position }) p.file_is;
        same = λ m other. same m ∙ p.same m other;
        same_files = λ j other. files j other ∙ p.same_files j other;
      }

  pub frame-view :
      (s s' : State) (m : ℕ)
      → descriptor s' m ≡ descriptor s m
      → ((d : Descriptor)
          → descriptor s m ≡ some d
          → described s' d.description ≡ described s d.description)
      → view kernel s' m ≡ view kernel s m
  unfolding view
  frame-view s s' m same files = elim (Option-cases (descriptor s m)) [
    | inl none_there ↦ ap (seen kernel s') (same ∙ none_there) ∙ sym (ap (seen kernel s) none_there)
    | inr (d, there) ↦
        ap (seen kernel s') (same ∙ there)
        ∙ ap (λ (f : Description). some (f, d.fd_flags)) (files d there)
        ∙ sym (ap (seen kernel s) there)
  ]

  -- `dup2` to the old number, and `close` of the new one.
  moved-Replaced :
      (k n fd : ℕ) (file : Description) (s s' : State)
      → descriptor s n ≡ none
      → fd ≢ n
      → Prepared n file s s'
      → Replaced n fd file s (perform k (close_call n) (perform k (dup2_call n fd) s'))
  unfolding view
  moved-Replaced k n fd file s s' free apart p =
      let (now, same, files) = dups k n fd s' _ (λ e. apart (sym e)) p.there in
      let s'' = perform k (dup2_call n fd) s' in
      let (gone, same', files') = closes k n s'' in
      let last = perform k (close_call n) s'' in
      record {
        now =
            ap (seen kernel last) (same' fd apart ∙ now)
            ∙ ap (λ (f : Description). some (f, 0)) (files' p.id ∙ files p.id ∙ p.file_is);
        others = λ m other.
            frame-view s last m
              (elim (Bool-cases (m == n)) [
                | inr apart_too ↦
                    let ne : m ≢ n = ne-of_test m n apart_too in
                    same' m ne ∙ same m other ∙ p.same m ne
                | inl e ↦
                    subst (λ (j : ℕ). descriptor last j ≡ descriptor s j) (eq-of_test n m e)
                      (gone ∙ sym free)
              ])
              (λ d there.
                files' d.description
                ∙ files d.description
                ∙ p.same_files d.description (p.fresh m d there));
        free = gone;
      }

  -- The file that `Reopen` makes of the information.
  abbrev pub file_of : ℕ → Info → Description
  file_of position i = record {
    path = i.file_path;
    open_flags = i.open_flags;
    status_flags = set_status kernel.settable i.fs_flags kernel.initial;
    position = position;
  }

  pub reopen-Replaced :
      (k : Outcomes) (n position : ℕ) (i : Info) (s : State)
      → Succeeds k n
      → i.is_sock ≡ false
      → i.offset ≡ pos position
      → descriptor s n ≡ none
      → i.fd ≢ n
      → Replaced n i.fd (file_of position i) s (perform_all kernel n (reopen k i).1 s)
  unfolding perform_all
  reopen-Replaced k n position i s w file seekable free apart =
      subst (λ cs. Replaced n i.fd (file_of position i) s (perform_all kernel n cs s))
        (sym (reopen-calls k n position i w file seekable))
        (moved-Replaced n n i.fd _ s _ free apart (
          seek-Prepared n n position _ s _ (
            set_fl-Prepared n n i.fs_flags _ s _ (
              set_fd-Prepared n n i.fd_flags _ s _
                (opened-Prepared n i.file_path i.open_flags s free)))))

  abbrev pub dev_null : ℕ → Description
  dev_null o_rdwr = record {
    path = bytes_of "/dev/null";
    open_flags = o_rdwr;
    status_flags = kernel.initial;
    position = 0;
  }

  pub detach-Replaced :
      (k : Outcomes) (o_rdwr n : ℕ) (i : Info) (s : State)
      → Succeeds k n
      → descriptor s n ≡ none
      → i.fd ≢ n
      → Replaced n i.fd (dev_null o_rdwr) s (perform_all kernel n (detach o_rdwr k i).1 s)
  unfolding perform_all
  detach-Replaced k o_rdwr n i s w free apart =
      subst (λ cs. Replaced n i.fd (dev_null o_rdwr) s (perform_all kernel n cs s))
        (sym (detach-calls o_rdwr k n i w))
        (moved-Replaced n n i.fd _ s _ free apart
          (opened-Prepared n (bytes_of "/dev/null") o_rdwr s free))
