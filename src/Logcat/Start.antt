-- ===== src/Logcat/Start.antt =====
-- `start` and `execLogcat`, lines 35-59 and 127-190: what the two processes do before they read the log
-- and write the file. A process is the list of what it did.
use xposed.Prelude.{
  ◌==◌, if◌then◌else◌, bytes_of, Bytes, ℤ, pos, minus_one, ℕ, Bool, true, not, ◌&&◌, List, [], ◌∷◌,
  map,
}
use xposed.FileSystem.{Sys, done, fails}

pub data LogDeed : Type 0 where
  keeps_capabilities : LogDeed
  joins_group : ℕ → LogDeed
  takes_installers_ids : LogDeed
  enters_context : LogDeed
  renames_log : LogDeed
  opens_pipe : LogDeed
  redirects_output : LogDeed
  limits_capabilities : List ℤ → (succeeds : Bool) → LogDeed
  executes : List Bytes → LogDeed
  copies_log : LogDeed
  gives_up : LogDeed

-- The result of a `fork` as the process sees it that goes on. `limits_logcat` and `limits_daemon`: whether
-- `capset` succeeds in the process, which `dropCapabilities` does not test.
pub record LogWorld : Type 0 where
  pub forks_daemon : Bool
  pub switches_ids : Bool
  pub has_selinux : Bool
  pub sets_context : Bool
  pub rename_log : Sys (Unit {0})
  pub makes_pipe : Bool
  pub forks_logcat : Bool
  pub redirects_stdout : Bool
  pub redirects_stderr : Bool
  pub logs_all : Bool
  pub limits_logcat : Bool
  pub limits_daemon : Bool
  pub execs : Bool

abbrev pub aid_log : ℕ
aid_log = 1007

abbrev pub cap_syslog : ℤ
cap_syslog = pos 34

-- Lines 41-53: the arguments of logcat.
unfoldable pub logcat_arguments : (all : Bool) → List Bytes
logcat_arguments all = map bytes_of (
    "logcat"
    ∷ "-v"
    ∷ "time"
    ∷ (if all
        then []
        else ("-s" ∷ "XposedStartupMarker:D" ∷ "Xposed:I" ∷ "appproc:I" ∷ "XposedInstaller:I"
            ∷ "art:F" ∷ [])))

module _ (enoent : ℕ) (w : LogWorld) where
  -- Lines 35-59.
  unfoldable pub exec_logcat : List LogDeed
  exec_logcat =
      limits_capabilities (cap_syslog ∷ minus_one ∷ []) w.limits_logcat
      ∷ executes (logcat_arguments w.logs_all)
      ∷ (if w.execs then [] else gives_up ∷ [])

  -- Lines 172-182: the child that becomes logcat.
  unfoldable pub logcat_child : List LogDeed
  logcat_child =
      if w.redirects_stdout && w.redirects_stderr
      then redirects_output ∷ exec_logcat
      else gives_up ∷ []

  -- Line 78: what `runDaemon` gives up, and its work.
  abbrev pub daemon_work : List LogDeed
  daemon_work = limits_capabilities [] w.limits_daemon ∷ copies_log ∷ gives_up ∷ []

  -- Lines 156-159: `rename` may find no old log.
  unfoldable pub may_rename : Sys (Unit {0}) → Bool
  may_rename (done _) = true
  may_rename (fails n) = n == enoent

  -- Lines 156-186, with what follows in the process after the second fork.
  unfoldable pub after_rights : (after_fork : List LogDeed) → List LogDeed
  after_rights after_fork =
      if not (may_rename w.rename_log)
      then gives_up ∷ []
      else renames_log
        ∷ (if not w.makes_pipe
            then gives_up ∷ []
            else opens_pipe ∷ (if not w.forks_logcat then gives_up ∷ [] else after_fork))

  -- Lines 137-186.
  unfoldable pub daemon : (after_fork : List LogDeed) → List LogDeed
  daemon after_fork =
      keeps_capabilities
      ∷ joins_group aid_log
      ∷ (if not w.switches_ids
          then gives_up ∷ []
          else takes_installers_ids
            ∷ (if not w.has_selinux
                then after_rights after_fork
                else if not w.sets_context
                then gives_up ∷ []
                else enters_context ∷ after_rights after_fork))

  -- `start`: the histories of the daemon and of the process that becomes logcat, each from the first
  -- fork on.
  unfoldable pub start_logging : List LogDeed × List LogDeed
  start_logging =
      if not w.forks_daemon
      then ([], [])
      else (daemon daemon_work, if w.forks_logcat then daemon logcat_child else [])
