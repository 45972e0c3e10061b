-- ===== src/Binder/Proxy.antt =====
-- `BpXposedService`, lines 419-512.
use xposed.Prelude.{
  leb, if◌then◌else◌, Bytes, ℤ, pos, pos_part, minus_one, is_positive, is_zero, ℕ, Bool, not, ◌&&◌,
  Option, none, some,
}
use xposed.Binder.Parcel.{token, int32, int64, string16, strong_binder, ParcelLib}
use xposed.Binder.Stub.{
  Transaction, test_transaction, add_service_transaction, access_file_transaction,
  stat_file_transaction, read_file_transaction, descriptor, TransactStatus,
}
use xposed.Run.{◌>>=◌, Run, fault, returned}

-- What a call through the proxy returns, with `errno`.
pub record RemoteResult : Type 0 where
  pub value : ℤ
  pub errno : ℤ

-- What the caller of `readFile` passes pointers to; each may be null but `buffer`.
pub record RemoteFile : Type 0 where
  pub size : Option ℤ
  pub mtime : Option ℤ
  pub buffer : Option Bytes
  pub bytes_read : Option ℤ
  pub errormsg : Option Bytes

-- A write through a pointer that may be null, and a read that is 0 then.
abbrev pub set_out {ℓ} : {A : Type ℓ} → A → Option A → Option A
set_out a none = none
set_out a (some b) = some a

abbrev pub value_or_zero : Option ℤ → ℤ
value_or_zero none = pos 0
value_or_zero (some n) = n

-- `remote` is the other side's `transact`; what it does to the reply of a failed call is its own.
module _ (lib : ParcelLib)
    (remote : Transaction → lib.Parcel → Run (TransactStatus × lib.Parcel)) where
  open lib use {
    Parcel, empty, write, read_int32, read_int64, read_string16, read_exception_code, data_avail,
  }

  abbrev pub request : Parcel
  request = write (token descriptor) empty

  unfoldable pub remote_test : Run ℤ
  remote_test = do
    (status, reply) ← remote test_transaction request
    let (exception, r₁) = read_exception_code reply
    returned (if not (is_zero exception) then minus_one else (read_int32 r₁).0)

  -- `failure` is the status as a number.
  unfoldable pub remote_add_service : (failure : TransactStatus → ℤ) → Bytes → ℕ → Bool → Run ℤ
  remote_add_service failure name service allow_isolated = do
    (status, reply) ← remote add_service_transaction (
        write (int32 (if allow_isolated then pos 1 else pos 0))
          (write (strong_binder service) (write (string16 name) request)))
    returned (if is_zero (failure status) then (read_exception_code reply).0 else failure status)

  unfoldable pub remote_access_file : Bytes → ℤ → (errno : ℤ) → Run RemoteResult
  remote_access_file name mode errno = do
    (status, reply) ←
        remote access_file_transaction (write (int32 mode) (write (string16 name) request))
    let (exception, r₁) = read_exception_code reply
    let err = (read_int32 r₁).0
    returned (
        if not (is_zero exception)
        then record { value = minus_one; errno = errno }
        else record { value = if is_zero err then pos 0 else minus_one; errno = err })

  unfoldable pub remote_stat_file :
      Bytes → Option ℤ → Option ℤ → (errno : ℤ) → Run (RemoteResult × Option ℤ × Option ℤ)
  remote_stat_file name size mtime errno = do
    (status, reply) ← remote stat_file_transaction (write (string16 name) request)
    let (exception, r₁) = read_exception_code reply
    let (err, r₂) = read_int32 r₁
    let (size₁, r₃) = read_int64 r₂
    let (mtime₁, r₄) = read_int64 r₃
    returned (
        if not (is_zero exception)
        then (record { value = minus_one; errno = errno }, size, mtime)
        else if not (is_zero err)
        then (record { value = minus_one; errno = err }, size, mtime)
        else (record { value = pos 0; errno = err }, set_out size₁ size, set_out mtime₁ mtime))

  -- Lines 501-507. `*buffer[bytesRead1] = 0` takes `buffer` for an array of pointers and follows the
  -- one at the index `bytesRead1`; only the index 0 is the caller's pointer.
  unfoldable pub fill_buffer : ℤ → Parcel → Run (Option Bytes)
  fill_buffer bytes_read reply =
      if is_positive bytes_read && leb (pos_part bytes_read) (data_avail reply)
      then fault
      else returned none

  unfoldable pub remote_read_file :
      Bytes → ℤ → ℤ → RemoteFile → (errno : ℤ) → Run (RemoteResult × RemoteFile)
  remote_read_file filename offset count o errno = do
    (status, reply) ← remote read_file_transaction (
        write (int64 (value_or_zero o.mtime)) (
          write (int64 (value_or_zero o.size))
            (write (int32 count) (write (int32 offset) (write (string16 filename) request)))))
    let (exception, r₁) = read_exception_code reply
    let (err, r₂) = read_int32 r₁
    let (errormsg, r₃) = read_string16 r₂
    let (size, r₄) = read_int64 r₃
    let (mtime, r₅) = read_int64 r₄
    let (bytes_read, r₆) = read_int32 r₅
    if not (is_zero exception)
        then returned (record { value = minus_one; errno = errno }, o)
        else (do
          buffer ← fill_buffer bytes_read r₆
          returned (
            record { value = if is_zero err then pos 0 else minus_one; errno = err },
            record {
              size = set_out size o.size;
              mtime = set_out mtime o.mtime;
              buffer = buffer;
              bytes_read = set_out bytes_read o.bytes_read;
              errormsg = set_out errormsg o.errormsg;
            },
          ))
