-- ===== src/Binder/Remote.antt =====
-- A call through the proxy does what the service's method does.
use xposed.Prelude.{
  if◌then◌else◌, Bytes, ℤ, pos, is_zero, ◌≡◌, ◌∙◌, false, List, [], ◌∷◌, minus_one, refl, ap,
  negsuc, eqb_ℤ, ℕ, Bool, true, not, Option,
}
use xposed.Binder.Defs.{Result}
use xposed.Binder.Parcel.{Item, token, int32, string16, ParcelLib, IsParcel, int64, strong_binder}
use xposed.Binder.Proxy.{request, remote_access_file, remote_add_service, set_out, remote_stat_file}
use xposed.Binder.Stub.{
  Transaction, Service, descriptor, TransactStatus, on_access_file, on_known, is_other, on_transact,
  access_file_transaction, no_error, on_add_service, on_stat_file, add_service_transaction,
  stat_file_transaction,
}
use xposed.Run.{Run, returned}
use xposed.Startup.Boot.{after}

-- The answer to `accessFile`.
abbrev pub answer : Result → ℤ
answer r = if is_zero r.value then pos 0 else pos r.errno

module _ (lib : ParcelLib) (law : IsParcel lib) (s : Service) (uninitialised : ℤ × ℤ)
    (other : TransactStatus × lib.Parcel) where
  open lib use {Parcel, empty, write, write_no_exception, enforce_interface}
  open law use {items, items_empty, items_write, items_no_exception, enforces}

  -- The other side of the link.
  abbrev pub service_at : Transaction → Parcel → Run (TransactStatus × Parcel)
  service_at = on_transact lib s uninitialised other

  items-request : items (request lib service_at) ≡ token descriptor ∷ []
  items-request = items_write (token descriptor) empty ∙ rw items_empty

  pub service_at-on_known :
      (t : Transaction) (d : Parcel) (rest : List Item)
      → is_other lib s t ≡ false
      → items d ≡ token descriptor ∷ rest
      → (items (enforce_interface descriptor d).1 ≡ rest)
        × (service_at t d ≡ on_known lib s uninitialised other t (enforce_interface descriptor d).1)
  unfolding on_transact
  service_at-on_known t d rest known e =
      let (ours, behind) = enforces d descriptor rest e in (behind, rw (known, ours))

  items-reply :
      (n : ℤ) → items (write (int32 n) (write_no_exception empty)) ≡ int32 (pos 0) ∷ int32 n ∷ []
  items-reply n = rw (items_write, items_no_exception, items_empty)

  items-on_access_file :
      (d : Parcel) (name : Bytes) (mode : ℤ)
      → items d ≡ string16 name ∷ int32 mode ∷ []
      → items (on_access_file lib s d empty)
        ≡ int32 (pos 0) ∷ int32 (answer (s.access_file name mode)) ∷ []
  unfolding on_access_file
  items-on_access_file d name mode e =
      let (name_is, behind) = law.reads_string16 d name (int32 mode ∷ []) e in
      let (mode_is, rest) = law.reads_int32 _ mode [] behind in
      items-reply _
      ∙ ap (λ r. int32 (pos 0) ∷ int32 (answer r) ∷ [])
          (ap (λ n. s.access_file n (lib.read_int32 (lib.read_string16 d).1).0) name_is
            ∙ ap (s.access_file name) mode_is)

  -- The header and the number behind it.
  reads-header :
      (p : Parcel) (n : ℤ) (rest : List Item)
      → items p ≡ int32 (pos 0) ∷ int32 n ∷ rest
      → ((lib.read_exception_code p).0 ≡ pos 0)
        × ((lib.read_int32 (lib.read_exception_code p).1).0 ≡ n)
        × (items (lib.read_int32 (lib.read_exception_code p).1).1 ≡ rest)
  reads-header p n rest e =
      let (fine, behind) = law.reads_exception_code p (pos 0) (int32 n ∷ rest) refl e in
      let (value, after) = law.reads_int32 _ n rest behind in (fine, value, after)

  items-access_request :
      (name : Bytes) (mode : ℤ)
      → items (write (int32 mode) (write (string16 name) (request lib service_at)))
        ≡ token descriptor ∷ string16 name ∷ int32 mode ∷ []
  items-access_request name mode = rw (items_write, items_write, items_write, items_empty)

  -- Through the proxy, `accessFile` returns 0 exactly where the service's method does or fails without
  -- an `errno`, and leaves the method's `errno`, or 0 where it succeeds.
  pub remote_access_file-access_file :
      (name : Bytes) (mode errno : ℤ)
      → remote_access_file lib service_at name mode errno
        ≡ returned (record {
          value = if is_zero (answer (s.access_file name mode)) then pos 0 else minus_one;
          errno = answer (s.access_file name mode);
        })
  unfolding remote_access_file on_known
  remote_access_file-access_file name mode errno =
      let (rest, called) =
        service_at-on_known access_file_transaction _ _ refl (items-access_request name mode) in
      let reply = items-on_access_file _ name mode rest in
      let (fine, err, after) = reads-header _ (answer (s.access_file name mode)) [] reply in
      rw (called, fine, err)

  items-add_request :
      (name : Bytes) (b : ℕ) (allow : ℤ)
      → items (
          write
            (int32 allow)
            (write (strong_binder b) (write (string16 name) (request lib service_at))))
        ≡ token descriptor ∷ string16 name ∷ strong_binder b ∷ int32 allow ∷ []
  items-add_request name b allow =
      rw (items_write, items_write, items_write, items_write, items_empty)

  items-on_add_service :
      (d : Parcel) (name : Bytes) (b : ℕ) (allow : ℤ)
      → items d ≡ string16 name ∷ strong_binder b ∷ int32 allow ∷ []
      → items (on_add_service lib s d empty)
        ≡ int32 (s.add_service name b (not (is_zero allow))) ∷ []
  unfolding on_add_service
  items-on_add_service d name b allow e =
      let (name_is, after_name) =
        law.reads_string16 d name (strong_binder b ∷ int32 allow ∷ []) e in
      let (b_is, after_b) = law.reads_strong_binder _ b (int32 allow ∷ []) after_name in
      let (allow_is, rest) = law.reads_int32 _ allow [] after_b in
      items_write _ empty ∙ rw (items_empty, name_is, b_is, allow_is)

  -- `addService` gives the method's status, although the reply has no header and the status is read
  -- as the code of an exception; but -128, which would be taken for a header.
  pub remote_add_service-add_service :
      (failure : TransactStatus → ℤ) (name : Bytes) (b : ℕ) (allow_isolated : Bool)
      → failure no_error ≡ pos 0
      → eqb_ℤ (s.add_service name b allow_isolated) (negsuc 127) ≡ false
      → remote_add_service lib service_at failure name b allow_isolated
        ≡ returned (s.add_service name b allow_isolated)
  unfolding remote_add_service on_known
  remote_add_service-add_service failure name b true success plain =
      let (rest, called) =
        service_at-on_known add_service_transaction _ _ refl (items-add_request name b (pos 1)) in
      let reply = items-on_add_service _ name b (pos 1) rest in
      let (status, after) = law.reads_exception_code _ _ [] plain reply in
      rw (called, success, status)
  remote_add_service-add_service failure name b false success plain =
      let (rest, called) =
        service_at-on_known add_service_transaction _ _ refl (items-add_request name b (pos 0)) in
      let reply = items-on_add_service _ name b (pos 0) rest in
      let (status, after) = law.reads_exception_code _ _ [] plain reply in
      rw (called, success, status)

  items-stat_request :
      (name : Bytes)
      → items (write (string16 name) (request lib service_at))
        ≡ token descriptor ∷ string16 name ∷ []
  items-stat_request name = rw (items_write, items_write, items_empty)

  items-on_stat_file :
      (d : Parcel) (name : Bytes) (size time : ℤ) (r : Result)
      → items d ≡ string16 name ∷ []
      → s.stat_file name uninitialised ≡ (r, size, time)
      → is_zero r.value ≡ true
      → items (on_stat_file lib s uninitialised d empty)
        ≡ int32 (pos 0) ∷ int32 (pos 0) ∷ int64 size ∷ int64 time ∷ []
  unfolding on_stat_file
  items-on_stat_file d name size time r e found well =
      let (name_is, behind) = law.reads_string16 d name [] e in
      let whole : s.stat_file (lib.read_string16 d).0 uninitialised ≡ (r, size, time) =
        ap (λ n. s.stat_file n uninitialised) name_is ∙ found in
      rw (whole, well, items_write, items_write, items_write, items_no_exception, items_empty)

  -- Through the proxy, `statFile` gives the size and the time that the service's method found, where it
  -- succeeds, to the pointers that are not null.
  pub remote_stat_file-stat_file :
      (name : Bytes) (size mtime : Option ℤ) (errno found_size found_time : ℤ) (r : Result)
      → s.stat_file name uninitialised ≡ (r, found_size, found_time)
      → is_zero r.value ≡ true
      → remote_stat_file lib service_at name size mtime errno
        ≡ returned (
          record { value = pos 0; errno = pos 0 },
          set_out found_size size,
          set_out found_time mtime,
        )
  unfolding remote_stat_file on_known
  remote_stat_file-stat_file name size mtime errno found_size found_time r found well =
      let (rest, called) =
        service_at-on_known stat_file_transaction _ _ refl (items-stat_request name) in
      let reply = items-on_stat_file _ name found_size found_time r rest found well in
      let (fine, err, after) =
        reads-header _ (pos 0) (int64 found_size ∷ int64 found_time ∷ []) reply in
      let (size_is, after_size) = law.reads_int64 _ found_size (int64 found_time ∷ []) after in
      let (time_is, end) = law.reads_int64 _ found_time [] after_size in
      rw (called, fine, err, size_is, time_is)
