-- ===== src/Bridge/Delivered.antt =====
-- Java gets what the service found.
use xposed.Prelude.{Bytes, length, is_zero, ℕ, ◌<◌, ◌≡◌, refl, ap, ◌∙◌, Bool, true, false}
use xposed.Bridge.Files.{check_file_access}
use xposed.FileSystem.{FileSystem, Sys, done, fails}
use xposed.Membased.Answers.{sys_value, access_file_call-answers}
use xposed.Membased.Process.{Process, is_service_accessible}
use xposed.Membased.Shared.{MemBasedState, Layout}
use xposed.Platform.{Errnos}

-- The result of `checkFileAccess`, `statFile` and `readFile`
abbrev pub is_done {ℓ} : {A : Type ℓ} → Sys A → Bool
is_done (done a) = true
is_done (fails n) = false

zero-is_done {ℓ} : {A : Type ℓ} (s : Sys A) → is_zero (sys_value s) ≡ is_done s
zero-is_done (done a) = refl
zero-is_done (fails n) = refl

-- Where the service may be used and the path fits, Java's `checkFileAccess` says exactly whether the
-- service's `access` succeeded.
check_file_access-is_done :
    (e : Errnos) (path_max : ℕ) (l : Layout) (fs : FileSystem) (p : Process) (path : Bytes)
    (mode : ℕ) (sh : MemBasedState)
    → (is_service_accessible e p).0 ≡ true
    → length path < path_max
    → (check_file_access e path_max l fs p path mode sh).value ≡ is_done (fs.access path mode)
unfolding check_file_access
check_file_access-is_done e path_max l fs p path mode sh ok short =
    let said = access_file_call-answers e path_max l fs p path mode sh ok short in
    ap is_zero said.0 ∙ zero-is_done (fs.access path mode)
