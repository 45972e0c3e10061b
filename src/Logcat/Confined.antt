-- ===== src/Logcat/Confined.antt =====
-- What the processes of the log have given up before they work.
use xposed.Prelude.{keep, ℕ, ◌≡◌, Bool, true, false, not, ◌&&◌, ◌||◌, List, [], ◌∷◌, arith}
use xposed.Logcat.Start.{
  LogDeed, keeps_capabilities, joins_group, takes_installers_ids, enters_context, renames_log,
  opens_pipe, redirects_output, limits_capabilities, executes, copies_log, gives_up, LogWorld,
  after_rights, daemon, start_logging, exec_logcat, logcat_child, daemon_work,
}

-- How far a process is.
pub record LogRights : Type 0 where
  pub has_ids : Bool
  pub has_entered : Bool
  pub has_asked : Bool
  pub has_limit : Bool
  pub has_saved_log : Bool

-- Whether a process runs logcat or writes the log only with the installer's ids, in the context where
-- there is one, after it asked for limited capabilities, with these where it can get them, and
-- after the old log was moved away.
pub is_careful : (needs_context can_limit : Bool) → LogRights → List LogDeed → Bool
is_careful needs_context can_limit r [] = true
is_careful needs_context can_limit r (d ∷ ds) =
    let ready : Bool =
      r.has_ids
      && (not needs_context || r.has_entered)
      && r.has_asked
      && (not can_limit || r.has_limit)
      && r.has_saved_log in
    elim d [
      | keeps_capabilities ↦ is_careful needs_context can_limit r ds
      | joins_group g ↦ not r.has_ids && is_careful needs_context can_limit r ds
      | takes_installers_ids ↦ is_careful needs_context can_limit (record r { has_ids = true }) ds
      | enters_context ↦ is_careful needs_context can_limit (record r { has_entered = true }) ds
      | renames_log ↦ is_careful needs_context can_limit (record r { has_saved_log = true }) ds
      | opens_pipe ↦ is_careful needs_context can_limit r ds
      | redirects_output ↦ is_careful needs_context can_limit r ds
      | limits_capabilities keep succeeds ↦
          is_careful needs_context can_limit (record r { has_asked = true; has_limit = succeeds })
            ds
      | executes args ↦ ready && is_careful needs_context can_limit r ds
      | copies_log ↦ ready && is_careful needs_context can_limit r ds
      | gives_up ↦ true
    ]

abbrev pub unlimited : LogRights
unlimited = record {
  has_ids = false;
  has_entered = false;
  has_asked = false;
  has_limit = false;
  has_saved_log = false;
}

after_rights-is_careful :
    (enoent : ℕ) (w : LogWorld) (needs_context can_limit : Bool) (r : LogRights)
    (after_fork : List LogDeed)
    → is_careful needs_context can_limit (record r { has_saved_log = true }) after_fork ≡ true
    → is_careful needs_context can_limit r (after_rights enoent w after_fork) ≡ true
unfolding is_careful after_rights
after_rights-is_careful enoent w needs_context can_limit r after_fork h = ground arith

daemon-is_careful :
    (enoent : ℕ) (w : LogWorld) (can_limit : Bool) (after_fork : List LogDeed)
    → is_careful w.has_selinux can_limit
        (record {
          has_ids = true;
          has_entered = w.has_selinux;
          has_asked = false;
          has_limit = false;
          has_saved_log = true;
        })
        after_fork
      ≡ true
    → is_careful w.has_selinux can_limit unlimited (daemon enoent w after_fork) ≡ true
unfolding is_careful daemon
daemon-is_careful enoent w can_limit after_fork h =
    let r : LogRights = record {
      has_ids = true;
      has_entered = w.has_selinux;
      has_asked = false;
      has_limit = false;
      has_saved_log = false;
    } in
    ground (arith, after_rights-is_careful enoent w w.has_selinux can_limit r after_fork h)

-- Whatever fails, neither process runs logcat or writes the log before it has the installer's ids, has
-- entered its context where SELinux is enabled, has asked the kernel to limit its capabilities,
-- which are limited then unless `capset` fails, and has moved the old log away if there was one;
-- and neither changes its groups after it gave up the right to.
pub start_logging-is_careful :
    (enoent : ℕ) (w : LogWorld)
    → (is_careful w.has_selinux w.limits_daemon unlimited (start_logging enoent w).0 ≡ true)
      × (is_careful w.has_selinux w.limits_logcat unlimited (start_logging enoent w).1 ≡ true)
unfolding start_logging is_careful exec_logcat logcat_child
start_logging-is_careful enoent w =
    let r : LogRights = record {
      has_ids = true;
      has_entered = w.has_selinux;
      has_asked = false;
      has_limit = false;
      has_saved_log = true;
    } in
    let works : is_careful w.has_selinux w.limits_daemon r (daemon_work enoent w) ≡ true =
      ground arith in
    let logs : is_careful w.has_selinux w.limits_logcat r (logcat_child enoent w) ≡ true =
      ground arith in
    (
      ground (arith, daemon-is_careful enoent w w.limits_daemon (daemon_work enoent w) works),
      ground (arith, daemon-is_careful enoent w w.limits_logcat (logcat_child enoent w) logs),
    )
