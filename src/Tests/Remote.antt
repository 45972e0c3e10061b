-- ===== src/Tests/Remote.antt =====
-- The proxies of the binder service at concrete inputs.
use xposed.Prelude.{
  if◌then◌else◌, bytes_of, pos, minus_one, ltb_ℤ, ◌≡◌, refl, none, some, [], ◌∷◌, ◌++◌, arith, ◌^◌,
  ap, true,
}
use xposed.Binder.Broken.{dead_service, remote_access_file-dead_service, remote_read_file-fault}
use xposed.Binder.Defs.{no_message, uid_system}
use xposed.Binder.Parcel.{list_parcels, list_parcels-IsParcel}
use xposed.Binder.Proxy.{RemoteFile, remote_access_file, remote_read_file}
use xposed.Binder.Remote.{service_at}
use xposed.Binder.Served.{Caller, xposed_service, remote_access_file-access}
use xposed.Binder.Stub.{Service, other_status}
use xposed.FileSystem.{Sys}
use xposed.Membased.Answers.{sys_errno}
use xposed.Platform.{linux}
use xposed.Run.{returned, fault}
use xposed.Tests.Service.{malloc, path, hello, one_file}

-- A service with one file, of five bytes; its modes above 4 are refused.
abbrev file_service : Service
file_service = record {
  test = pos 1;
  add_service = λ name b allow. pos 0;
  access_file =
      λ name mode. record { value = if ltb_ℤ (pos 4) mode then minus_one else pos 0; errno = 13 };
  stat_file = λ name there. (record { value = pos 0; errno = 0 }, pos 5, pos 7);
  read_file = λ name offset count out. returned (record {
    code = 0;
    out = record out {
      size = pos 5;
      mtime = pos 7;
      buffer = some (bytes_of "hello" ++ (0 ∷ []));
      bytes_read = pos 5;
    };
  });
  text_of = λ m. [];
}

remote_access_file-dead_service_example :
    remote_access_file list_parcels (dead_service list_parcels) (bytes_of "/a") (pos 6) (pos 2)
    ≡ returned (record { value = pos 0; errno = pos 0 })
remote_access_file-dead_service_example =
    remote_access_file-dead_service list_parcels list_parcels-IsParcel (bytes_of "/a") (pos 6)
      (pos 2)

abbrev outputs : RemoteFile
outputs = record {
  size = some (pos 0);
  mtime = some (pos 0);
  buffer = none;
  bytes_read = some (pos 0);
  errormsg = none;
}

remote_read_file-fault_example :
    remote_read_file list_parcels
      (service_at list_parcels list_parcels-IsParcel file_service (pos 0, pos 0) (other_status, []))
      (bytes_of "/a")
      (pos 0)
      (pos 0)
      outputs
      (pos 0)
    ≡ fault
remote_read_file-fault_example =
    remote_read_file-fault list_parcels list_parcels-IsParcel file_service (pos 0, pos 0)
      (other_status, []) (bytes_of "/a") (pos 0) (pos 0) (pos 0) outputs
      (record {
        code = 0;
        out = record {
          size = pos 5;
          mtime = pos 7;
          buffer = some (bytes_of "hello" ++ (0 ∷ []));
          bytes_read = pos 5;
          errormsg = no_message;
        };
      })
      4 (bytes_of "hello" ++ (0 ∷ [])) refl refl refl (omega arith)

abbrev system_caller : Caller
system_caller = record {
  uid = uid_system;
  pid = 77;
  is_system = true;
  installer_uid = 10050;
  string8 = λ s. s;
  read_back = λ s. s;
  registers = λ name b allow. pos 0;
  text_of = λ m. [];
}

remote_access_file-access_example :
    remote_access_file list_parcels
      (service_at list_parcels list_parcels-IsParcel
        (xposed_service linux (2 ^ 32) malloc (one_file hello 5) system_caller)
        (pos 0, pos 0)
        (other_status, []))
      path
      (pos 2)
      (pos 0)
    ≡ returned (record { value = minus_one; errno = pos 13 })
remote_access_file-access_example =
    remote_access_file-access list_parcels list_parcels-IsParcel linux (2 ^ 32) malloc
      (one_file hello 5) system_caller (pos 0, pos 0) (other_status, []) path (pos 2) (pos 0) refl
      (omega arith) (λ n h. omega (arith, ap (λ (r : Sys (Unit {0})). sys_errno r) h))
