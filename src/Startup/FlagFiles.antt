-- ===== src/Startup/FlagFiles.antt =====
-- The files by which Xposed is switched: xposed.cpp lines 242-274, and `zygote_access` of
-- xposed_service.h.
use xposed.Prelude.{
  leb, if◌then◌else◌, bytes_of, Bytes, ℤ, pos, eqb_ℤ, ℕ, Bool, true, false, ◌&&◌, Option, none,
  some, List, ◌∷◌, ◌++◌,
}

unfoldable pub xposed_dir : (platform_sdk_version : ℕ) → Bytes
xposed_dir platform_sdk_version =
    if leb 24 platform_sdk_version
    then bytes_of "/data/user_de/0/de.robv.android.xposed.installer/"
    else bytes_of "/data/data/de.robv.android.xposed.installer/"

unfoldable pub xposed_load_blocker : ℕ → Bytes
xposed_load_blocker platform_sdk_version =
    xposed_dir platform_sdk_version ++ bytes_of "conf/disabled"

unfoldable pub xposed_safemode_nodelay : ℕ → Bytes
xposed_safemode_nodelay platform_sdk_version =
    xposed_dir platform_sdk_version ++ bytes_of "conf/safemode_nodelay"

unfoldable pub xposed_safemode_disable : ℕ → Bytes
xposed_safemode_disable platform_sdk_version =
    xposed_dir platform_sdk_version ++ bytes_of "conf/safemode_disable"

-- The build, whether SELinux is enabled, what `accessFile` of the memory-based service and `access`
-- of the system return for a path and `F_OK`, given the files that exist, and whether a file can be
-- created.
pub record Files : Type 0 where
  pub with_selinux : Bool
  pub platform_sdk_version : ℕ
  pub selinux_enabled : Bool
  pub access_file : List Bytes → Bytes → ℤ
  pub access : List Bytes → Bytes → ℤ
  pub open_created : Bytes → Option ℕ

unfoldable pub zygote_access : Files → List Bytes → Bytes → ℤ
zygote_access f existing pathname =
    if f.with_selinux && f.selinux_enabled
    then f.access_file existing pathname
    else f.access existing pathname

unfoldable pub is_disabled : Files → List Bytes → Bool
unfolding zygote_access
is_disabled f existing =
    eqb_ℤ (zygote_access f existing (xposed_load_blocker f.platform_sdk_version)) (pos 0)

-- The files after `open` with `O_CREAT`; the descriptor is closed at once. What `open` returns is not
-- passed on.
unfoldable pub disable_xposed : Files → List Bytes → List Bytes
disable_xposed f existing = elim (f.open_created (xposed_load_blocker f.platform_sdk_version)) [
  | none ↦ existing
  | some fd ↦ xposed_load_blocker f.platform_sdk_version ∷ existing
]

unfoldable pub is_safemode_disabled : Files → List Bytes → Bool
unfolding zygote_access
is_safemode_disabled f existing =
    if eqb_ℤ (zygote_access f existing (xposed_safemode_disable f.platform_sdk_version)) (pos 0)
    then true
    else false

unfoldable pub should_skip_safemode_delay : Files → List Bytes → Bool
unfolding zygote_access
should_skip_safemode_delay f existing =
    if eqb_ℤ (zygote_access f existing (xposed_safemode_nodelay f.platform_sdk_version)) (pos 0)
    then true
    else false
