-- ===== src/Startup/Dropping.antt =====
-- Which rights a process keeps, and whose it takes.
use xposed.Prelude.{
  ◌==◌, if◌then◌else◌, Bool-cases, any, ℤ, pos, negsuc, ℕ, ◌/◌, ◌%◌, ◌<◌, ◌≡◌, refl, subst, inl,
  inr, Bool, true, false, not, ◌&&◌, ◌||◌, none, some, List, [], ◌∷◌, arith,
}
use xposed.FileSystem.{done, fails}
use xposed.Startup.Rights.{
  Installer, Answers, run_child, is_success, determine_installer, Credentials, switch_to_installer,
  CapabilityWord, permitted_bits, drop_capabilities,
}

-- `determineXposedInstallerUidGid` under SELinux succeeds exactly if the child could be started, got
-- its context, found the directory and was waited for; then the ids are the directory's. Otherwise,
-- and without SELinux where the directory is not found, they stay as they are.
pub determine_installer-ids :
    (with_selinux : Bool) (a : Answers) (x : Installer)
    → (determine_installer with_selinux a true x ≡ (
        if a.maps && a.can_fork && a.child_survives && a.waits && (not with_selinux || a.setcon)
        then elim a.child_stat [
          | fails n ↦ (false, x)
          | done st ↦ (true, record { uid = st.st_uid; gid = st.st_gid })
        ]
        else (false, x)))
      × (determine_installer with_selinux a false x ≡ elim a.own_stat [
        | fails n ↦ (false, x)
        | done st ↦ (true, record { uid = st.st_uid; gid = st.st_gid })
      ])
unfolding determine_installer is_success run_child
determine_installer-ids with_selinux a x = (ground arith, ground arith)

-- The user is changed only after the group, and only if both changes are allowed: a process that
-- keeps its user reports failure, and one that succeeds has both ids of the installer.
pub switch_to_installer-ids :
    (may_gid may_uid : ℕ → Bool) (x : Installer) (p : Credentials)
    → ((switch_to_installer may_gid may_uid x p).0 ≡ (may_gid x.gid && may_uid x.uid))
      × ((switch_to_installer may_gid may_uid x p).1.user
          ≡ (if may_gid x.gid && may_uid x.uid then x.uid else p.user))
      × ((switch_to_installer may_gid may_uid x p).1.group
          ≡ (if may_gid x.gid then x.gid else p.group))
unfolding switch_to_installer
switch_to_installer-ids may_gid may_uid x p = (ground arith, ground arith, ground arith)

-- Whether a capability is named before the first negative number.
pub is_kept : ℕ → List ℤ → Bool
is_kept c [] = false
is_kept c (pos d ∷ ds) = (d == c) || is_kept c ds
is_kept c (negsuc n ∷ ds) = false

permitted_bits-is_kept :
    (c : ℕ) (keep : List ℤ) → any (λ b. b == c % 32) (permitted_bits (c / 32) keep) ≡ is_kept c keep
unfolding permitted_bits is_kept
permitted_bits-is_kept c [] = refl
permitted_bits-is_kept c (pos d ∷ ds) = ground (arith, permitted_bits-is_kept c ds)
permitted_bits-is_kept c (negsuc n ∷ ds) = refl

-- The bit of a capability in the word that is given to `capset`.
abbrev pub has_capability : ℕ → CapabilityWord → Bool
has_capability c w = any (λ b. b == c % 32) w.permitted

-- The array that `dropCapabilities` is given: capabilities that its two words have, and a negative number
-- that ends it. With any other one the loop would leave the array or the words.
unfoldable pub IsEnded : List ℤ → Type 0
IsEnded [] = ⊥
IsEnded (pos c ∷ cs) = (c < 64) × IsEnded cs
IsEnded (negsuc n ∷ cs) = Unit

-- Of an array of capabilities below 64 that a negative number ends, `dropCapabilities` asks `capset`
-- to permit exactly those that are named before that number, each in its word, and it makes
-- each word's three sets the same; for NULL all sets are empty.
pub drop_capabilities-is_kept :
    (c : ℕ) (keep : List ℤ)
    → IsEnded keep
    → c < 64
    → (has_capability c (
          if c / 32 == 0
          then (drop_capabilities (some keep)).0
          else (drop_capabilities (some keep)).1)
        ≡ is_kept c keep)
      × ((drop_capabilities (some keep)).0.effective ≡ (drop_capabilities (some keep)).0.permitted)
      × ((drop_capabilities (some keep)).0.inheritable
          ≡ (drop_capabilities (some keep)).0.permitted)
      × ((drop_capabilities (some keep)).1.effective ≡ (drop_capabilities (some keep)).1.permitted)
      × ((drop_capabilities (some keep)).1.inheritable
          ≡ (drop_capabilities (some keep)).1.permitted)
      × (drop_capabilities none ≡ (
        record { permitted = []; effective = []; inheritable = [] },
        record { permitted = []; effective = []; inheritable = [] },
      ))
unfolding drop_capabilities
drop_capabilities-is_kept c keep ends small = elim (Bool-cases (c / 32 == 0)) [
  | inl h ↦
      let word : c / 32 ≡ 0 = ground arith in
      (
        rw h (
            subst (λ (w : ℕ). any (λ b. b == c % 32) (permitted_bits w keep) ≡ is_kept c keep) word
              (permitted_bits-is_kept c keep)),
        refl,
        refl,
        refl,
        refl,
        refl,
      )
  | inr h ↦
      let word : c / 32 ≡ 1 = ground arith in
      (
        rw h (
            subst (λ (w : ℕ). any (λ b. b == c % 32) (permitted_bits w keep) ≡ is_kept c keep) word
              (permitted_bits-is_kept c keep)),
        refl,
        refl,
        refl,
        refl,
        refl,
      )
]
