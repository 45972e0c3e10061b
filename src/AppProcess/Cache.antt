-- ===== src/AppProcess/Cache.antt =====
-- `maybeCreateDalvikCache` of app_main2.cpp, lines 154-192.
use xposed.Prelude.{
  leb, ◌==◌, if◌then◌else◌, Option-cases, bytes_of, Bytes, length, ℕ, ◌<◌, ◌≡◌, ◌≢◌, inl, inr, Bool,
  true, false, not, Option, none, some, List, [], ◌∷◌, ◌++◌, arith,
}
use xposed.FileSystem.{Sys, done, fails}

-- What the system answers: the variable ANDROID_DATA, the name of the instruction set with which the
-- program is built, the limit of a path, and whether each call succeeds.
pub record CacheSystem : Type 0 where
  pub android_data : Option Bytes
  pub instruction_set : Bytes
  pub path_max : ℕ
  pub eexist : ℕ
  pub mkdir : Bytes → Sys (Unit {0})
  pub chown : Bytes → Sys (Unit {0})
  pub chmod : Bytes → Sys (Unit {0})

pub data CacheCall : Type 0 where
  mkdir_call : Bytes → (mode : ℕ) → CacheCall
  chown_call : Bytes → (owner group : ℕ) → CacheCall
  chmod_call : Bytes → (mode : ℕ) → CacheCall

abbrev pub aid_root : ℕ
aid_root = 0

-- 0711, in octal.
abbrev pub cache_mode : ℕ
cache_mode = 457

-- The directory exists afterwards, or did before.
abbrev pub may_exist : ℕ → Sys (Unit {0}) → Bool
may_exist eexist (done u) = true
may_exist eexist (fails errno) = errno == eexist

abbrev pub has_succeeded : Sys (Unit {0}) → Bool
has_succeeded (done u) = true
has_succeeded (fails errno) = false

unfoldable pub dalvik_cache_dir : CacheSystem → (android_root : Bytes) → Bytes
dalvik_cache_dir s android_root = android_root ++ (bytes_of "/dalvik-cache/" ++ s.instruction_set)

-- Whether the function returns, and the calls that it makes; any failure ends the program.
unfoldable pub maybe_create_dalvik_cache : CacheSystem → Bool × List CacheCall
unfolding dalvik_cache_dir
maybe_create_dalvik_cache s = elim s.android_data [
  | none ↦ (false, [])
  | some android_root ↦
      let dir = dalvik_cache_dir s android_root in
      if leb s.path_max (length dir)
      then (false, [])
      else if not (may_exist s.eexist (s.mkdir dir))
      then (false, mkdir_call dir cache_mode ∷ [])
      else if not (has_succeeded (s.chown dir))
      then (false, mkdir_call dir cache_mode ∷ chown_call dir aid_root aid_root ∷ [])
      else (
        has_succeeded (s.chmod dir),
        mkdir_call dir cache_mode
            ∷ chown_call dir aid_root aid_root
            ∷ chmod_call dir cache_mode
            ∷ [],
      )
]

-- The steps after the path, for their answers.
abbrev steps_of : (too_long made owned moded : Bool) → Bytes → Bool × List CacheCall
steps_of too_long made owned moded dir =
    if too_long
    then (false, [])
    else if not made
    then (false, mkdir_call dir cache_mode ∷ [])
    else if not owned
    then (false, mkdir_call dir cache_mode ∷ chown_call dir aid_root aid_root ∷ [])
    else (
      moded,
      mkdir_call dir cache_mode ∷ chown_call dir aid_root aid_root ∷ chmod_call dir cache_mode ∷ [],
    )

steps :
    (too_long made owned moded : Bool) (dir : Bytes) (calls : List CacheCall)
    → steps_of too_long made owned moded dir ≡ (true, calls)
    → (too_long ≡ false)
      × (made ≡ true)
      × (owned ≡ true)
      × (moded ≡ true)
      × (calls
          ≡ mkdir_call dir cache_mode
            ∷ chown_call dir aid_root aid_root
            ∷ chmod_call dir cache_mode
            ∷ [])
steps too_long made owned moded dir calls h = ground arith

unset_fatal :
    (s : CacheSystem) (calls : List CacheCall)
    → s.android_data ≡ none
    → maybe_create_dalvik_cache s ≢ (true, calls)
unfolding maybe_create_dalvik_cache
unset_fatal s calls unset = rw (unset, maybe_create_dalvik_cache) (λ e. cc e)

-- Where the function returns, the directory, whose path is not cut off, was made or there before, and
-- its owner and mode were set, also if it was there before.
maybe_create_dalvik_cache-returns :
    (s : CacheSystem) (calls : List CacheCall)
    → maybe_create_dalvik_cache s ≡ (true, calls)
    → (dir : Bytes) × (length dir < s.path_max)
      × (may_exist s.eexist (s.mkdir dir) ≡ true)
      × (has_succeeded (s.chown dir) ≡ true)
      × (has_succeeded (s.chmod dir) ≡ true)
      × (calls
          ≡ mkdir_call dir cache_mode
            ∷ chown_call dir aid_root aid_root
            ∷ chmod_call dir cache_mode
            ∷ [])
unfolding maybe_create_dalvik_cache
maybe_create_dalvik_cache-returns s calls h = elim (Option-cases s.android_data) [
  | inl unset ↦ absurd (unset_fatal s calls unset h)
  | inr (root, set) ↦
      let dir = dalvik_cache_dir s root in
      let (short, made, owned, moded, all_calls) =
        steps (leb s.path_max (length dir)) (may_exist s.eexist (s.mkdir dir))
          (has_succeeded (s.chown dir)) (has_succeeded (s.chmod dir)) dir calls
          (rw (set, maybe_create_dalvik_cache) at h) in
      (dir, ground arith, made, owned, moded, all_calls)
]
