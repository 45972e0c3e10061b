-- ===== src/Tests/Files.antt =====
-- The binder methods and the descriptors at concrete inputs.
use xposed.Prelude.{
  bytes_of, Bytes, ℤ, pos, ◌-◌, ◌^◌, ◌≡◌, refl, true, false, none, some, List, [], ◌∷◌, ◌++◌, arith,
}
use xposed.Binder.Defs.{read_file, uid_system, no_message, Out}
use xposed.Binder.Range.{read_file-take, wanted}
use xposed.Fd.Info.{regular_file, OpenFile, Config, Info, Outcomes}
use xposed.Fd.Table.{Entry}
use xposed.FileSystem.{done, fails, regular}
use xposed.Platform.{linux}
use xposed.Run.{returned}
use xposed.Tests.Service.{malloc, malloc-Allocates, some_stat, path, hello, one_file}

abbrev pub fresh_out : Out
fresh_out = record {
  size = pos 0;
  mtime = pos 0;
  buffer = none;
  bytes_read = pos 0;
  errormsg = no_message;
}

read_file-take_example :
    read_file linux (2 ^ 32) malloc (one_file hello 5) uid_system path (pos 1) (pos 3) fresh_out
    ≡ returned (record {
      code = 0;
      out = record {
        size = pos 5;
        mtime = pos 7;
        buffer = some (bytes_of "ell" ++ 0 ∷ []);
        bytes_read = pos 3;
        errormsg = no_message;
      };
    })
unfolding wanted
read_file-take_example =
    read_file-take linux (2 ^ 32) malloc (one_file hello 5) malloc-Allocates path hello
      (regular hello) refl (record { seeks = λ p. refl; reads = λ p n. refl }) 1 3 fresh_out
      (some_stat 5) refl refl refl refl (omega arith) (omega arith) (omega arith)

abbrev pub config : Config
config = record { af_netlink = 16; af_unix = 1; k_open_flags = 4099; platform_sdk_version = 23 }

abbrev pub apk : OpenFile
apk = record {
  fstat = done regular_file;
  getsockname = fails 88;
  readlink = done (bytes_of "/system/app/A.apk");
  get_fd = done 1;
  get_fl = done 2050;
  lseek = done 9;
}

abbrev pub apk_info : Info
apk_info = record {
  fd = 8;
  file_path = bytes_of "/system/app/A.apk";
  open_flags = 2;
  fd_flags = 1;
  fs_flags = 2048;
  offset = pos 9;
  is_sock = false;
}

abbrev pub all_well : Outcomes
all_well = record {
  open_file = some 20;
  set_fd = true;
  set_fl = true;
  seek = true;
  dup2 = true;
  close = true;
}

abbrev pub no_dup2 : Outcomes
no_dup2 = record all_well { dup2 = false }

-- The number that one digit stands for.
abbrev pub strtol_digit : Bytes → ℤ × Bytes
strtol_digit [] = (pos 0, [])
strtol_digit (c ∷ s) = (pos (c - b'0'), s)

abbrev pub open_files : List Entry
open_files =
    record { d_name = bytes_of "2"; file = apk; outcomes = all_well }
    ∷ record { d_name = bytes_of "8"; file = apk; outcomes = all_well }
    ∷ []
