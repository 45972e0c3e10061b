-- ===== src/Binder/Served.antt =====
-- The service's methods behind the link: `XposedService` as the service of `onTransact`.
use xposed.Prelude.{
  ◌==◌, if◌then◌else◌, Bytes, ℤ, pos, minus_one, ℕ, ◌<◌, ◌≡◌, ap, ◌∙◌, Bool, Option, Bool-cases,
  is_zero, inl, inr, false, arith,
}
use xposed.Binder.Defs.{
  access_at, access_file, stat_file, read_file, add_service, uid_system, Message, Result,
}
use xposed.Binder.Parcel.{ParcelLib, IsParcel}
use xposed.Binder.Proxy.{RemoteResult, remote_access_file}
use xposed.Binder.Remote.{service_at, remote_access_file-access_file, answer}
use xposed.Binder.Stub.{Service, TransactStatus}
use xposed.FileSystem.{Sys, fails, FileSystem, Sys-cases}
use xposed.Membased.Answers.{sys_value, sys_errno}
use xposed.Platform.{Errnos}
use xposed.Run.{returned}

-- Who calls, which process serves it, and what the binder library and the service manager do: `string8`
-- is the conversion of `String16` to `String8`, and `read_back` what can be read at the address of
-- such a text after its `String8` is destroyed, since the methods on files keep only the
-- address (lines 664, 675, 698).
pub record Caller : Type 0 where
  pub uid : ℕ
  pub pid : ℕ
  pub is_system : Bool
  pub installer_uid : ℕ
  pub string8 : Bytes → Bytes
  pub read_back : Bytes → Bytes
  pub registers : Bytes → ℕ → Bool → ℤ
  pub text_of : Message → Bytes

-- Line 638.
unfoldable pub test_pid : Caller → ℤ
test_pid c = pos c.pid

-- `String8(filename16).string()`, as it is read.
abbrev pub file_name : Caller → Bytes → Bytes
file_name c name = c.read_back (c.string8 name)

unfoldable pub xposed_service :
    (e : Errnos) (word : ℕ) (malloc : ℕ → Option Bytes) (fs : FileSystem) → Caller → Service
xposed_service e word malloc fs c = record {
  test = test_pid c;
  add_service = λ name b allow.
      (add_service e c.is_system c.installer_uid c.uid 0 (c.registers name b allow)).value;
  access_file = λ name mode. access_file e fs c.uid (file_name c name) mode 0;
  stat_file = λ name there. stat_file e fs c.uid (file_name c name) 0 there;
  read_file =
      λ name offset count out. read_file e word malloc fs c.uid (file_name c name) offset count out;
  text_of = c.text_of;
}

-- What the proxy's caller gets for what `access` did.
abbrev pub access_result : Errnos → Bool → Sys (Unit {0}) → RemoteResult
access_result e allowed r =
    if allowed
    then record { value = sys_value r; errno = pos (sys_errno r) }
    else record { value = minus_one; errno = pos e.eperm }

-- The answer to the reply that the service's method leads to.
abbrev reply_value : Result → RemoteResult
reply_value r = record { value = if is_zero (answer r) then pos 0 else minus_one; errno = answer r }

access_file-access_result :
    (e : Errnos) (fs : FileSystem) (caller : ℕ) (name : Bytes) (mode : ℤ)
    → 0 < e.eperm
    → ((n : ℕ) → access_at fs name mode ≡ fails n → 0 < n)
    → reply_value (access_file e fs caller name mode 0)
      ≡ access_result e (caller == uid_system) (access_at fs name mode)
unfolding access_file
access_file-access_result e fs caller name mode perm pos_errors =
    elim (Bool-cases (caller == uid_system)) [
      | inr stranger ↦
          let nonzero : (e.eperm == 0) ≡ false = ground arith in rw (access_file, stranger, nonzero)
      | inl system ↦ elim (Sys-cases (access_at fs name mode)) [
        | inl (u, allowed) ↦ rw (access_file, system, allowed)
        | inr (n, refused) ↦
            let positive = pos_errors n refused in
            let nonzero : (n == 0) ≡ false = ground arith in
            rw (access_file, system, refused, nonzero)
      ]
    ]

-- From the proxy to the file system and back: a caller of the system gets the result of `access` in the
-- serving process and its `errno`, or 0 where the access is allowed; every other caller gets -1
-- and EPERM; whatever the mode, negative ones included. Errors have numbers above 0, and the
-- bytes of the converted name are still where they were after its `String8` is destroyed.
pub remote_access_file-access :
    (lib : ParcelLib) (law : IsParcel lib) (e : Errnos) (word : ℕ) (malloc : ℕ → Option Bytes)
    (fs : FileSystem) (c : Caller) (uninitialised : ℤ × ℤ) (other : TransactStatus × lib.Parcel)
    (name : Bytes) (mode : ℤ) (errno : ℤ)
    → c.read_back (c.string8 name) ≡ c.string8 name
    → 0 < e.eperm
    → ((n : ℕ) → access_at fs (c.string8 name) mode ≡ fails n → 0 < n)
    → remote_access_file lib
        (service_at lib law (xposed_service e word malloc fs c) uninitialised other)
        name
        mode
        errno
      ≡ returned (access_result e (c.uid == uid_system) (access_at fs (c.string8 name) mode))
unfolding xposed_service
remote_access_file-access lib law e word malloc fs c uninitialised other name mode errno still perm
      pos_errors =
    remote_access_file-access_file lib law (xposed_service e word malloc fs c) uninitialised other
      name mode errno
    ∙ ap (λ (r : RemoteResult). returned r)
        (rw still (access_file-access_result e fs c.uid (c.string8 name) mode perm pos_errors))
