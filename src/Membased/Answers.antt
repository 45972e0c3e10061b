-- ===== src/Membased/Answers.antt =====
-- What `accessFile` and `statFile` answer on every branch.
use xposed.Prelude.{
  if◌then◌else◌, Bytes, length, ℤ, pos, minus_one, ℕ, ◌≤◌, ◌<◌, ◌≡◌, ◌⊎◌, true, false, arith, refl,
}
use xposed.FileSystem.{Sys, done, fails, FileSystem}
use xposed.Membased.Client.{access_file_call, stat_file_call, make_idle}
use xposed.Membased.Process.{Process, is_service_accessible}
use xposed.Membased.Shared.{state_idle, op_none, Stat, MemBasedState, Layout}
use xposed.Platform.{Errnos}

-- The value that `access` and `stat` return, and what they leave in `errno`: 0 for success.
abbrev pub sys_value {ℓ} : {A : Type ℓ} → Sys A → ℤ
sys_value (done a) = pos 0
sys_value (fails n) = minus_one

abbrev pub sys_errno {ℓ} : {A : Type ℓ} → Sys A → ℕ
sys_errno (done a) = 0
sys_errno (fails n) = n

-- A call that returned leaves the service free for the next one.
pub record IsReleased (sh : MemBasedState) : Type 0 where
  pub idle : sh.state ≡ state_idle
  pub no_action : sh.action ≡ op_none

pub make_idle-IsReleased : (sh : MemBasedState) → IsReleased (make_idle sh)
unfolding make_idle
make_idle-IsReleased sh = record { idle = refl; no_action = refl }

module _ (e : Errnos) (path_max : ℕ) (l : Layout) (fs : FileSystem) where
  -- Where the service may be used and the path fits, `accessFile` returns what the service's
  -- `access` of that path and mode returned, leaves its `errno`, and sets the service free; nothing
  -- else of the process changes.
  pub access_file_call-answers :
      (p : Process) (path : Bytes) (mode : ℕ) (sh : MemBasedState)
      → (is_service_accessible e p).0 ≡ true
      → length path < path_max
      → ((access_file_call e path_max l fs p path mode sh).value ≡ sys_value (fs.access path mode))
        × ((access_file_call e path_max l fs p path mode sh).process
            ≡ record p { errno = sys_errno (fs.access path mode) })
        × IsReleased (access_file_call e path_max l fs p path mode sh).memory
  unfolding access_file_call
  access_file_call-answers p path mode sh ok short = ground arith

  -- The same for `statFile`, where the service's `stat` succeeds: the caller gets 0 and the metadata
  -- that the service got.
  pub stat_file_call-answers :
      (p : Process) (path : Bytes) (st found : Stat) (sh : MemBasedState)
      → (is_service_accessible e p).0 ≡ true
      → length path < path_max
      → fs.stat path ≡ done found
      → ((stat_file_call e path_max l fs p path st sh).value ≡ (pos 0, found))
        × ((stat_file_call e path_max l fs p path st sh).process ≡ record p { errno = 0 })
        × IsReleased (stat_file_call e path_max l fs p path st sh).memory
  unfolding stat_file_call
  stat_file_call-answers p path st found sh ok short is_found = ground arith

  -- Where the service's `stat` fails, the caller gets -1 and the service's `errno`.
  pub stat_file_call-fails :
      (p : Process) (path : Bytes) (st : Stat) (n : ℕ) (sh : MemBasedState)
      → (is_service_accessible e p).0 ≡ true
      → length path < path_max
      → fs.stat path ≡ fails n
      → ((stat_file_call e path_max l fs p path st sh).value.0 ≡ minus_one)
        × ((stat_file_call e path_max l fs p path st sh).process ≡ record p { errno = n })
        × IsReleased (stat_file_call e path_max l fs p path st sh).memory
  unfolding stat_file_call
  stat_file_call-fails p path st n sh ok short failed = ground arith

  -- Where the service may not be used, or the path does not fit its array, a call fails with EPERM
  -- or ENAMETOOLONG and the shared memory is not touched.
  pub access_file_call-refused :
      (p : Process) (path : Bytes) (mode : ℕ) (sh : MemBasedState)
      → 0 < path_max
      → ((is_service_accessible e p).0 ≡ false) ⊎ (path_max ≤ length path)
      → ((access_file_call e path_max l fs p path mode sh).value ≡ minus_one)
        × ((access_file_call e path_max l fs p path mode sh).memory ≡ sh)
        × ((access_file_call e path_max l fs p path mode sh).process.errno
            ≡ (if (is_service_accessible e p).0 then e.enametoolong else e.eperm))
  unfolding access_file_call
  access_file_call-refused p path mode sh pm why = ground arith
