-- ===== src/Binder/Stub.antt =====
-- `BnXposedService::onTransact`, lines 516-593.
use xposed.Prelude.{
  leb, if◌then◌else◌, bytes_of, Bytes, length, take, ℤ, pos, pos_part, minus_one, is_positive,
  is_zero, ℕ, Bool, true, false, not, Option, none, some,
}
use xposed.Binder.Defs.{Message, no_message, Out, Status, Result}
use xposed.Binder.Parcel.{int32, int64, string16, raw, ParcelLib}
use xposed.Run.{◌>>=◌, ◌>>◌, Run, fault, returned, require}

-- The codes of the interface, and others.
pub data Transaction : Type 0 where
  test_transaction : Transaction
  add_service_transaction : Transaction
  access_file_transaction : Transaction
  stat_file_transaction : Transaction
  read_file_transaction : Transaction
  other_transaction : ℕ → Transaction

-- The virtual methods, with the results that they leave through pointers and in `errno`. A text of a
-- message is one in UTF-16, here its code units.
pub record Service : Type 0 where
  pub test : ℤ
  pub add_service : Bytes → ℕ → Bool → ℤ
  pub access_file : Bytes → ℤ → Result
  pub stat_file : Bytes → ℤ × ℤ → Result × ℤ × ℤ
  pub read_file : Bytes → ℤ → ℤ → Out → Run Status
  pub text_of : Message → Bytes

abbrev pub descriptor : Bytes
descriptor = bytes_of "de.robv.android.xposed.IXposedService"

-- The statuses of the binder library that are told apart: success, and a wrong interface.
pub data TransactStatus : Type 0 where
  no_error : TransactStatus
  bad_interface : TransactStatus
  other_status : TransactStatus

-- `reply->write(buffer, bytesRead)`: a fault if the buffer is null or shorter.
abbrev pub read_buffer : Option Bytes → ℕ → Run Bytes
read_buffer none n = fault
read_buffer (some b) n = do require (leb n (length b)); returned (take n b)

module _ (lib : ParcelLib) (s : Service) where
  open lib use {
    Parcel, write, write_no_exception, read_int32, read_int64, read_string16, read_strong_binder,
  }

  -- Lines 519-522.
  unfoldable pub on_test : Parcel → Parcel
  on_test reply = write (int32 s.test) (write_no_exception reply)

  -- Lines 526-532. No header is written.
  unfoldable pub on_add_service : Parcel → Parcel → Parcel
  on_add_service d reply =
      let (which, d₁) = read_string16 d in
      let (b, d₂) = read_strong_binder d₁ in
      let (allow, d₃) = read_int32 d₂ in
      write (int32 (s.add_service which b (not (is_zero allow)))) reply

  -- Lines 535-543.
  unfoldable pub on_access_file : Parcel → Parcel → Parcel
  on_access_file d reply =
      let (filename, d₁) = read_string16 d in
      let (mode, d₂) = read_int32 d₁ in
      let r = s.access_file filename mode in
      write (int32 (if is_zero r.value then pos 0 else pos r.errno)) (write_no_exception reply)

  -- Lines 546-561. The size and the time are what was there if the method does not set them.
  unfoldable pub on_stat_file : (uninitialised : ℤ × ℤ) → Parcel → Parcel → Parcel
  on_stat_file uninitialised d reply =
      let (filename, d₁) = read_string16 d in
      let (r, size, time) = s.stat_file filename uninitialised in
      if is_zero r.value
      then write (int64 time)
          (write (int64 size) (write (int32 (pos 0)) (write_no_exception reply)))
      else write (int32 (pos r.errno)) (write_no_exception reply)

  -- Lines 575-586.
  unfoldable pub reply_file : Status → Parcel → Run Parcel
  reply_file st reply =
      let headed = write (int64 st.out.mtime) (
        write (int64 st.out.size) (
          write (string16 (s.text_of st.out.errormsg))
            (write (int32 (pos st.code)) (write_no_exception reply)))) in
      if is_positive st.out.bytes_read
      then (do
        bs ← read_buffer st.out.buffer (pos_part st.out.bytes_read)
        returned (write (raw bs) (write (int32 st.out.bytes_read) headed)))
      else returned (write (int32 st.out.bytes_read) headed)

  -- Lines 563-587.
  unfoldable pub on_read_file : Parcel → Parcel → Run Parcel
  on_read_file d reply = do
    let (filename, d₁) = read_string16 d
    let (offset, d₂) = read_int32 d₁
    let (count, d₃) = read_int32 d₂
    let (size, d₄) = read_int64 d₃
    let (mtime, d₅) = read_int64 d₄
    st ← s.read_file filename offset count (record {
      size = size;
      mtime = mtime;
      buffer = none;
      bytes_read = minus_one;
      errormsg = no_message;
    })
    reply_file st reply

  -- The handler behind `CHECK_INTERFACE`. `other` is the base class's handler.
  unfoldable pub on_known :
      (uninitialised : ℤ × ℤ)
      → (other : TransactStatus × Parcel) → Transaction
      → Parcel
      → Run (TransactStatus × Parcel)
  on_known uninitialised other test_transaction d = returned (no_error, on_test lib.empty)
  on_known uninitialised other add_service_transaction d =
      returned (no_error, on_add_service d lib.empty)
  on_known uninitialised other access_file_transaction d =
      returned (no_error, on_access_file d lib.empty)
  on_known uninitialised other stat_file_transaction d =
      returned (no_error, on_stat_file uninitialised d lib.empty)
  on_known uninitialised other read_file_transaction d = do
    reply ← on_read_file d lib.empty
    returned (no_error, reply)
  on_known uninitialised other (other_transaction n) d = returned other

  abbrev pub is_other : Transaction → Bool
  is_other test_transaction = false
  is_other add_service_transaction = false
  is_other access_file_transaction = false
  is_other stat_file_transaction = false
  is_other read_file_transaction = false
  is_other (other_transaction n) = true

  unfoldable pub on_transact :
      (uninitialised : ℤ × ℤ)
      → (other : TransactStatus × Parcel) → Transaction
      → Parcel
      → Run (TransactStatus × Parcel)
  on_transact uninitialised other asked d =
      let (is_ours, d') = lib.enforce_interface descriptor d in
      if is_other asked
      then returned other
      else if is_ours
      then on_known uninitialised other asked d'
      else returned (bad_interface, lib.empty)
