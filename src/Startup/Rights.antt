-- ===== src/Startup/Rights.antt =====
-- xposed.cpp, lines 431-516: the installer's user and group, and the rights of a process.
use xposed.Prelude.{
  ◌==◌, if◌then◌else◌, keep, ℤ, pos, negsuc, ℕ, ◌/◌, ◌%◌, Bool, true, false, not, ◌&&◌, ◌||◌,
  Option, none, some, List, [], ◌∷◌,
}
use xposed.FileSystem.{Sys, done, fails}
use xposed.Membased.Shared.{Stat}

-- How the child that looks for the directory ends.
pub data Child : Type 0 where
  exits : ℕ → Child
  is_killed : Child
  is_lost : Child

-- The fields of `xposed`.
pub record Installer : Type 0 where
  pub uid : ℕ
  pub gid : ℕ

-- What the system answers: `mmap`, `fork`, `setcon` and the wait in the child's context, and `stat`
-- of the directory, there and in the process itself.
pub record Answers : Type 0 where
  pub maps : Bool
  pub can_fork : Bool
  pub setcon : Bool
  pub child_survives : Bool
  pub waits : Bool
  pub child_stat : Sys Stat
  pub own_stat : Sys Stat

module _ (with_selinux : Bool) (a : Answers) where
  -- Lines 446-461: how the child ends, and what it leaves in the shared structure.
  unfoldable pub run_child : Stat → Child × Stat
  run_child st =
      if with_selinux && not a.setcon
      then (exits 1, st)
      else elim a.child_stat [ fails n ↦ (exits 1, st) | done found ↦ (exits 0, found) ]

  -- `waitpid`, `WIFEXITED` and `WEXITSTATUS`.
  unfoldable pub is_success : Child → Bool
  is_success (exits n) = a.waits && (n == 0)
  is_success is_killed = false
  is_success is_lost = false

  unfoldable pub determine_installer : (selinux_enabled : Bool) → Installer → Bool × Installer
  determine_installer true x =
      let blank : Stat = record {
        st_size = 0;
        st_mtime = 0;
        is_directory = false;
        st_uid = 0;
        st_gid = 0;
      } in
      let (ended_as, st) = run_child blank in
      let child = if a.child_survives then ended_as else is_killed in
      if not a.maps || not a.can_fork
      then (false, x)
      else if is_success child
      then (true, record { uid = st.st_uid; gid = st.st_gid })
      else (false, x)
  determine_installer false x = elim a.own_stat [
    | fails n ↦ (false, x)
    | done st ↦ (true, record { uid = st.st_uid; gid = st.st_gid })
  ]

-- The user and the group of a process.
pub record Credentials : Type 0 where
  pub user : ℕ
  pub group : ℕ

-- `switchToXposedInstallerUidGid`, given whether the process may have a group, and a user.
unfoldable pub switch_to_installer :
    (may_gid may_uid : ℕ → Bool) → Installer → Credentials → Bool × Credentials
switch_to_installer may_gid may_uid x p =
    if not (may_gid x.gid)
    then (false, p)
    else if not (may_uid x.uid)
    then (false, record p { group = x.gid })
    else (true, record { user = x.uid; group = x.gid })

-- `CAP_TO_INDEX` and the bit within a word; a set of bits is the list of those that are set.
pub record CapabilityWord : Type 0 where
  pub permitted : List ℕ
  pub effective : List ℕ
  pub inheritable : List ℕ

-- Line 509: the words' `permitted` of one index, for the capabilities before the first negative one.
unfoldable pub permitted_bits : (index : ℕ) → List ℤ → List ℕ
permitted_bits index [] = []
permitted_bits index (pos c ∷ cs) =
    let rest = permitted_bits index cs in if c / 32 == index then (c % 32) ∷ rest else rest
permitted_bits index (negsuc n ∷ cs) = []

-- `dropCapabilities`: the two words given to `capset`.
unfoldable pub drop_capabilities : Option (List ℤ) → CapabilityWord × CapabilityWord
drop_capabilities none =
    let empty : CapabilityWord = record { permitted = []; effective = []; inheritable = [] } in
    (empty, empty)
drop_capabilities (some keep) =
    let word : List ℕ → CapabilityWord =
      λ bits. record { permitted = bits; effective = bits; inheritable = bits } in
    (word (permitted_bits 0 keep), word (permitted_bits 1 keep))
