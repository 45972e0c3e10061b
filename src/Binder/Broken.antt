-- ===== src/Binder/Broken.antt =====
-- Two faults of the proxies.
use xposed.Prelude.{
  Bytes, length, take, ℤ, pos, minus_one, ℕ, suc, ◌≤◌, ◌≡◌, none, some, [], ◌∷◌, refl, ◌∙◌,
  leb-of_le, ltb-of_lt, length-take, arith,
}
use xposed.Binder.Defs.{no_message, Out, Status}
use xposed.Binder.Parcel.{token, int32, int64, string16, raw, ParcelLib, IsParcel}
use xposed.Binder.Proxy.{
  request, remote_access_file, RemoteFile, value_or_zero, fill_buffer, remote_read_file,
}
use xposed.Binder.Remote.{service_at, service_at-on_known}
use xposed.Binder.Stub.{
  Transaction, Service, descriptor, TransactStatus, other_status, reply_file, on_read_file,
  read_file_transaction, on_known,
}
use xposed.Run.{Run, returned, fault}

-- A service that does not answer: `transact` fails and leaves the reply empty.
abbrev pub dead_service :
    (lib : ParcelLib) → Transaction → lib.Parcel → Run (TransactStatus × lib.Parcel)
dead_service lib t d = returned (other_status, lib.empty)

-- The status of `transact` is not looked at, and an empty reply reads as zeros: where the service does
-- not answer, `accessFile` says that every access is allowed, with an `errno` of 0.
pub remote_access_file-dead_service :
    (lib : ParcelLib)
    → IsParcel lib
    → (name : Bytes) (mode errno : ℤ)
    → remote_access_file lib (dead_service lib) name mode errno
      ≡ returned (record { value = pos 0; errno = pos 0 })
unfolding remote_access_file
remote_access_file-dead_service lib law name mode errno =
    let (fine, rest) = law.ends_exception_code lib.empty law.items_empty in
    let (err, end) = law.ends_int32 _ rest in rw (fine, err)

module _ (lib : ParcelLib) (law : IsParcel lib) (s : Service) (uninitialised : ℤ × ℤ)
    (other : TransactStatus × lib.Parcel) where
  open lib use {Parcel, empty, write, write_no_exception, enforce_interface}
  open law use {items, items_empty, items_write, items_no_exception, enforces}

  items-read_request :
      (name : Bytes) (offset count size mtime : ℤ)
      → items (
          write (int64 mtime) (
            write (int64 size) (
              write (int32 count) (
                write (int32 offset) (
                  write
                    (string16 name)
                    (request lib (service_at lib law s uninitialised other)))))))
        ≡ token descriptor
          ∷ string16 name
          ∷ int32 offset
          ∷ int32 count
          ∷ int64 size
          ∷ int64 mtime
          ∷ []
  items-read_request name offset count size mtime =
      rw (items_write, items_write, items_write, items_write, items_write, items_write, items_empty)

  -- The outputs with which the service's method is called.
  abbrev pub before_read : ℤ → ℤ → Out
  before_read size mtime = record {
    size = size;
    mtime = mtime;
    buffer = none;
    bytes_read = minus_one;
    errormsg = no_message;
  }

  on_read_file-reply_file :
      (d : Parcel) (name : Bytes) (offset count size mtime : ℤ) (st : Status)
      → items d ≡ string16 name ∷ int32 offset ∷ int32 count ∷ int64 size ∷ int64 mtime ∷ []
      → s.read_file name offset count (before_read size mtime) ≡ returned st
      → on_read_file lib s d empty ≡ reply_file lib s st empty
  unfolding on_read_file
  on_read_file-reply_file d name offset count size mtime st e answered_so =
      let (name_is, d₁) = law.reads_string16 d name _ e in
      let (offset_is, d₂) = law.reads_int32 _ offset _ d₁ in
      let (count_is, d₃) = law.reads_int32 _ count _ d₂ in
      let (size_is, d₄) = law.reads_int64 _ size _ d₃ in
      let (mtime_is, d₅) = law.reads_int64 _ mtime _ d₄ in
      rw (name_is, offset_is, count_is, size_is, mtime_is, answered_so)

  -- The reply with some bytes.
  abbrev full_reply : Status → Bytes → Parcel
  full_reply st bs = write (raw bs) (
      write (int32 st.out.bytes_read) (
        write (int64 st.out.mtime) (
          write (int64 st.out.size) (
            write (string16 (s.text_of st.out.errormsg))
              (write (int32 (pos st.code)) (write_no_exception empty))))))

  reply_file-full_reply :
      (st : Status) (n : ℕ) (b : Bytes)
      → st.out.bytes_read ≡ pos (suc n)
      → st.out.buffer ≡ some b
      → suc n ≤ length b
      → reply_file lib s st empty ≡ returned (full_reply st (take (suc n) b))
  unfolding reply_file
  reply_file-full_reply st n b some_read has_buffer fits =
      rw (
        some_read,
        has_buffer,
        leb-of_le (suc n) (length b) fits,
        ltb-of_lt 0 (suc n) (omega arith),
      )

  items-full_reply :
      (st : Status) (bs : Bytes)
      → items (full_reply st bs)
        ≡ int32 (pos 0)
          ∷ int32 (pos st.code)
          ∷ string16 (s.text_of st.out.errormsg)
          ∷ int64 st.out.size
          ∷ int64 st.out.mtime
          ∷ int32 st.out.bytes_read
          ∷ raw bs
          ∷ []
  items-full_reply st bs = rw (
    items_write, items_write, items_write, items_write, items_write, items_write,
    items_no_exception, items_empty,
  )

  fill_buffer-fault :
      (remote : Transaction → Parcel → Run (TransactStatus × Parcel)) (bytes_read : ℤ) (n : ℕ)
      (p : Parcel)
      → bytes_read ≡ pos (suc n)
      → suc n ≤ lib.data_avail p
      → fill_buffer lib remote bytes_read p ≡ fault
  unfolding fill_buffer
  fill_buffer-fault remote bytes_read n p e h =
      rw (e, leb-of_le (suc n) (lib.data_avail p) h, ltb-of_lt 0 (suc n) (omega arith))

  -- Whenever the service's method read some bytes of a file, the proxy's `readFile` writes outside the
  -- caller's pointer: a file that is not empty is never delivered.
  pub remote_read_file-fault :
      (name : Bytes) (offset count errno : ℤ) (o : RemoteFile) (st : Status) (n : ℕ) (b : Bytes)
      → s.read_file name offset count (before_read (value_or_zero o.size) (value_or_zero o.mtime))
        ≡ returned st
      → st.out.bytes_read ≡ pos (suc n)
      → st.out.buffer ≡ some b
      → suc n ≤ length b
      → remote_read_file lib (service_at lib law s uninitialised other) name offset count o errno
        ≡ fault
  unfolding remote_read_file on_known
  remote_read_file-fault name offset count errno o st n b answered_so some_read has_buffer fits =
      let (rest, called) =
        service_at-on_known lib law s uninitialised other read_file_transaction _ _ refl
          (items-read_request name offset count (value_or_zero o.size) (value_or_zero o.mtime)) in
      let served =
        on_read_file-reply_file _ name offset count _ _ st rest answered_so
        ∙ reply_file-full_reply st n b some_read has_buffer fits in
      let (fine, d₁) = law.reads_exception_code _ _ _ refl (items-full_reply st (take (suc n) b)) in
      let (err, d₂) = law.reads_int32 _ _ _ d₁ in
      let (text, d₃) = law.reads_string16 _ _ _ d₂ in
      let (size, d₄) = law.reads_int64 _ _ _ d₃ in
      let (mtime, d₅) = law.reads_int64 _ _ _ d₄ in
      let (bytes, d₆) = law.reads_int32 _ _ _ d₅ in
      let enough = law.available _ _ _ d₆ in
      let behind : Parcel =
        (lib.read_int32
          (lib.read_int64
            (lib.read_int64
              (lib.read_string16
                (lib.read_int32
                  (lib.read_exception_code (full_reply st (take (suc n) b))).1).1).1).1).1).1 in
      let avail : suc n ≤ lib.data_avail behind =
        omega (arith, enough, length-take {0} (suc n) b) in
      rw (
        called,
        served,
        fine,
        fill_buffer-fault (service_at lib law s uninitialised other) _ n behind (bytes ∙ some_read)
            avail,
      )
