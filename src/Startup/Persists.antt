-- ===== src/Startup/Persists.antt =====
-- `initialize` with its flag files: what a start leaves for the next.
use xposed.Prelude.{
  if◌then◌else◌, eqb_text, Bytes, any, pos, eqb_ℤ, ◌≡◌, Bool, true, false, List, Bool-cases, refl,
  ◌∙◌, inl, inr, not, ◌&&◌, [], ◌∷◌, arith, Option-cases, ℕ, ◌||◌, some,
}
use xposed.Startup.Boot.{
  Build, Calls, Event, initialize, load, check_safemode, restrict_forks, start_services,
}
use xposed.Startup.FlagFiles.{Files}
use xposed.Startup.Order.{is_safemode, initialize-loads, has_services}
use xposed.Startup.FlagFiles

-- What the other functions answer at one start; see Startup.Boot.Calls.
pub record Others : Type 0 where
  pub is_minimal : Bool
  pub finds_installer : Bool
  pub starts_all : Bool
  pub starts_membased : Bool
  pub is_triggered : (skip_delay : Bool) → Bool
  pub ignores_command : Bool
  pub adds_jar : Bool

abbrev pub calls_with : Files → List Bytes → Others → Calls
calls_with f existing o = record {
  is_minimal = o.is_minimal;
  selinux_enabled = f.selinux_enabled;
  finds_installer = o.finds_installer;
  starts_all = o.starts_all;
  starts_membased = o.starts_membased;
  is_safemode_disabled = FlagFiles.is_safemode_disabled f existing;
  skips_delay = FlagFiles.should_skip_safemode_delay f existing;
  is_triggered = o.is_triggered;
  is_disabled = λ was_disabled.
      FlagFiles.is_disabled f
        (if was_disabled then FlagFiles.disable_xposed f existing else existing);
  ignores_command = o.ignores_command;
  adds_jar = o.adds_jar;
}

-- Whether `disableXposed` was called.
unfoldable pub disables : List Event → Bool
disables [] = false
disables (Event.disable_xposed ∷ es) = true
disables (e ∷ es) = disables es

-- A start of the zygote, or of a tool.
pub record Attempt : Type 0 where
  pub others : Others
  pub zygote : Bool
  pub start_system_server : Bool

-- The calls that look for a file find it exactly if it exists.
pub record IsFaithful (f : Files) : Type 0 where
  pub by_service :
      (existing : List Bytes) (path : Bytes)
      → eqb_ℤ (f.access_file existing path) (pos 0) ≡ any (eqb_text path) existing
  pub by_system :
      (existing : List Bytes) (path : Bytes)
      → eqb_ℤ (f.access existing path) (pos 0) ≡ any (eqb_text path) existing

module _ (f : Files) (enable_for_tools : Bool) where
  abbrev pub build_of : Build
  build_of = record { enable_for_tools = enable_for_tools; with_selinux = f.with_selinux }

  abbrev pub outcome_of : Attempt → List Bytes → Bool × List Event
  outcome_of a existing =
      initialize build_of (calls_with f existing a.others) a.zygote a.start_system_server

  -- One start: whether Xposed is loaded, and the files that exist afterwards.
  unfoldable pub attempt : Attempt → List Bytes → Bool × List Bytes
  attempt a existing =
      let r = outcome_of a existing in
      (r.0, if disables r.1 then FlagFiles.disable_xposed f existing else existing)

  -- Whether Xposed is loaded, for each of these starts.
  unfoldable pub attempts : List Attempt → List Bytes → List Bool
  attempts [] existing = []
  attempts (a ∷ others) existing = (attempt a existing).0 ∷ attempts others (attempt a existing).1

initialize-disables :
    (b : Build) (k : Calls) (zygote start_system_server : Bool)
    → disables (initialize b k zygote start_system_server).1 ≡ true
    → is_safemode k zygote ≡ true
unfolding initialize disables is_safemode start_services restrict_forks check_safemode load
initialize-disables b k zygote start_system_server h = ground arith

eqb_text_refl : (s : Bytes) → eqb_text s s ≡ true
eqb_text_refl [] = refl
eqb_text_refl (c ∷ s) = ground (arith, eqb_text_refl s)

unloaded : (a b c d e g : Bool) → d ≡ true → (a && b && c && not d && e && g) ≡ false
unloaded true true true true e g h = refl
unloaded true true false d e g h = refl
unloaded true false c d e g h = refl
unloaded false b c d e g h = refl
unloaded true true true false e g h = absurd (cc h)

initialize-unloaded :
    (b : Build) (k : Calls) (zygote start_system_server : Bool)
    → k.is_disabled (is_safemode k zygote) ≡ true
    → (initialize b k zygote start_system_server).0 ≡ false
initialize-unloaded b k zygote start_system_server h =
    initialize-loads b k zygote start_system_server
    ∙ unloaded (b.enable_for_tools || zygote) (not k.is_minimal)
        (has_services b k start_system_server) (k.is_disabled (is_safemode k zygote))
        (zygote || not k.ignores_command) k.adds_jar h

or_true : (a b : Bool) → a ≡ true → (a || b) ≡ true
or_true a b h = rw h

after_it : (a b : Bool) → b ≡ true → (a || b) ≡ true
after_it true b h = refl
after_it false b h = h

module _ (f : Files) (law : IsFaithful f) (enable_for_tools : Bool) where
  -- The blocker exists.
  abbrev pub IsBlocked : List Bytes → Type 0
  IsBlocked existing =
      any (eqb_text (FlagFiles.xposed_load_blocker f.platform_sdk_version)) existing ≡ true

  IsBlocked-is_disabled :
      (existing : List Bytes) → IsBlocked existing → FlagFiles.is_disabled f existing ≡ true
  unfolding FlagFiles.is_disabled FlagFiles.zygote_access
  IsBlocked-is_disabled existing h = elim (Bool-cases (f.with_selinux && f.selinux_enabled)) [
    | inl e ↦ rw e (law.by_service existing _ ∙ h)
    | inr e ↦ rw e (law.by_system existing _ ∙ h)
  ]

  disable_xposed-IsBlocked :
      (existing : List Bytes) → IsBlocked existing → IsBlocked (FlagFiles.disable_xposed f existing)
  unfolding FlagFiles.disable_xposed
  disable_xposed-IsBlocked existing h =
      elim (Option-cases (f.open_created (FlagFiles.xposed_load_blocker f.platform_sdk_version))) [
        | inl failed ↦ rw (failed, FlagFiles.disable_xposed) h
        | inr (fd, opened) ↦ rw (opened, FlagFiles.disable_xposed) (after_it _ _ h)
      ]

  created-IsBlocked :
      (existing : List Bytes) (fd : ℕ)
      → f.open_created (FlagFiles.xposed_load_blocker f.platform_sdk_version) ≡ some fd
      → IsBlocked (FlagFiles.disable_xposed f existing)
  unfolding FlagFiles.disable_xposed
  created-IsBlocked existing fd opened =
      rw (opened, FlagFiles.disable_xposed)
        (or_true _ _ (eqb_text_refl (FlagFiles.xposed_load_blocker f.platform_sdk_version)))

  if_disabled-IsBlocked :
      (b : Bool) (existing : List Bytes)
      → IsBlocked existing
      → IsBlocked (if b then FlagFiles.disable_xposed f existing else existing)
  if_disabled-IsBlocked true existing h = disable_xposed-IsBlocked existing h
  if_disabled-IsBlocked false existing h = h

  disabled-unloaded :
      (a : Attempt) (existing : List Bytes)
      → (calls_with f existing a.others).is_disabled
          (is_safemode (calls_with f existing a.others) a.zygote)
        ≡ true
      → (attempt f enable_for_tools a existing).0 ≡ false
  unfolding attempt
  disabled-unloaded a existing h =
      initialize-unloaded (build_of f enable_for_tools) (calls_with f existing a.others) a.zygote
        a.start_system_server h

  attempt-IsBlocked :
      (a : Attempt) (existing : List Bytes)
      → IsBlocked existing
      → ((attempt f enable_for_tools a existing).0 ≡ false)
        × IsBlocked (attempt f enable_for_tools a existing).1
  unfolding attempt
  attempt-IsBlocked a existing h = (
    disabled-unloaded a existing (IsBlocked-is_disabled _ (if_disabled-IsBlocked _ existing h)),
    if_disabled-IsBlocked _ existing h,
  )

  attempts-unloaded :
      (later_ones : List Attempt) (existing : List Bytes)
      → IsBlocked existing
      → any (λ loaded. loaded) (attempts f enable_for_tools later_ones existing) ≡ false
  unfolding attempts
  attempts-unloaded [] existing h = refl
  attempts-unloaded (a ∷ others) existing h =
      let (unused, still) = attempt-IsBlocked a existing h in
      rw unused (attempts-unloaded others _ still)

  -- Where the file that blocks Xposed can be created, and the files are found: if safe mode is
  -- triggered at a start, Xposed is loaded neither then nor at any later start, of the zygote or of a
  -- tool, whatever is answered there, for as long as only these starts change the flag files.
  pub safemode-persists :
      (a : Attempt) (later_ones : List Attempt) (existing : List Bytes) (fd : ℕ)
      → f.open_created (FlagFiles.xposed_load_blocker f.platform_sdk_version) ≡ some fd
      → disables (outcome_of f enable_for_tools a existing).1 ≡ true
      → any (λ loaded. loaded) (attempts f enable_for_tools (a ∷ later_ones) existing) ≡ false
  unfolding attempts attempt
  safemode-persists a later_ones existing fd opened h =
      let mode =
        initialize-disables (build_of f enable_for_tools) (calls_with f existing a.others) a.zygote
          a.start_system_server h in
      let blocked : IsBlocked (FlagFiles.disable_xposed f existing) =
        created-IsBlocked existing fd opened in
      let unused : (attempt f enable_for_tools a existing).0 ≡ false =
        disabled-unloaded a existing (rw mode (IsBlocked-is_disabled _ blocked)) in
      rw unused (rw h (attempts-unloaded later_ones _ blocked))
