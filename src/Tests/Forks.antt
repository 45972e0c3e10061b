-- ===== src/Tests/Forks.antt =====
-- Runs of the reopening of descriptors, on a system of descriptors.
use xposed.Prelude.{
  inr, inl, ◌==◌, if◌then◌else◌, Bool-cases, bytes_of, ℕ, ◌<◌, ◌≡◌, refl, subst, true, Option, none,
  some, some-injective, [], ◌∷◌, arith,
}
use xposed.Fd.Fork.{table_of, after_create, IsKept, create-reopen_all}
use xposed.Fd.Info.{
  regular_file, OpenFile, Config, is_whitelisted, create_from_fd, Outcomes, detach, file_info,
}
use xposed.Fd.Kernel.{Description, Descriptor, view, perform_all}
use xposed.Fd.Machine.{machine, machine-IsKernel}
use xposed.Fd.Remembered.{All}
use xposed.Fd.Restored.{Succeeds}
use xposed.Fd.RoundTrip.{Observes}
use xposed.Fd.Scanned.{IsDirectory}
use xposed.Fd.Table.{Entry, reopen_all, put, parse_fd, visit_fd, scan, create}
use xposed.FileSystem.{done, fails}
use xposed.Tests.Files.{strtol_digit}

-- The constants of Linux: `O_RDWR` is 2; the bits of the access mode, `O_DSYNC` and `O_SYNC` are 1052675.
abbrev linux : Config
linux = record { af_netlink = 16; af_unix = 1; k_open_flags = 1_052_675; platform_sdk_version = 23 }

-- An archive, open for reading, at position 40, with close-on-exec (1) and the flags
-- `O_NONBLOCK` (2048) and `O_LARGEFILE` (131072).
abbrev archive : Description
archive = record {
  path = bytes_of "/data/app/a.apk";
  open_flags = 0;
  status_flags = 133_120;
  position = 40;
}

abbrev observed : OpenFile
observed = record {
  fstat = done regular_file;
  getsockname = fails 0;
  readlink = done (bytes_of "/data/app/a.apk");
  get_fd = done 1;
  get_fl = done 133_120;
  lseek = done 40;
}

abbrev held : Option Descriptor
held = some (record { description = 0; fd_flags = 1 })

abbrev empty : Option Descriptor
empty = none

-- Descriptor 7 holds the archive, and no other is in use.
fds_before : ℕ → Option Descriptor
fds_before m = if m == 7 then held else empty

fds_before-below : (m : ℕ) (d : Descriptor) → fds_before m ≡ some d → d.description < 1
unfolding fds_before
fds_before-below m d h = elim (Bool-cases (m == 7)) [
  | inl same ↦
      let e : held ≡ some d = rw same at h in
      subst (λ (a : Descriptor). a.description < 1) (some-injective _ _ e) (omega arith)
  | inr apart ↦ let e : empty ≡ some d = rw apart at h in absurd (cc e)
]

before : machine.State
unfolding machine
before = record { fds = fds_before; files = λ _. archive; next = 1; below = fds_before-below }

abbrev outcomes : Outcomes
outcomes = record {
  open_file = some 3;
  set_fd = true;
  set_fl = true;
  seek = true;
  dup2 = true;
  close = true;
}

outcomes-Succeeds : Succeeds outcomes 3
outcomes-Succeeds = record {
  opened = refl;
  set_fd_done = refl;
  set_fl_done = refl;
  seek_done = refl;
  dup2_done = refl;
}

observed-Observes : Observes linux observed archive 1
unfolding is_whitelisted
observed-Observes = record {
  kind = regular_file;
  stated = refl;
  no_socket = refl;
  reopenable = refl;
  linked = refl;
  whitelisted = refl;
  fd_flags_are = refl;
  status = 133_120;
  status_is = refl;
  open_part = refl;
  other_part = refl;
  position_is = refl;
}

-- The directory lists the archive's descriptor.
abbrev listed : Entry
listed = record { d_name = bytes_of "7"; file = observed; outcomes = outcomes }

listed-IsDirectory :
    IsDirectory machine machine-IsKernel strtol_digit linux 2 4 3 before (listed ∷ [])
unfolding IsDirectory All parse_fd machine before fds_before view
listed-IsDirectory = (
  λ looked_at. record {
    works = outcomes-Succeeds;
    in_use = λ e. cc e;
    kind = λ i made. inr (archive, 1, observed-Observes, refl, refl);
  },
  tt,
  tt,
)

-- Descriptor 7 after the fork.
create-reopen_all_example :
    IsKept machine machine-IsKernel strtol_digit linux 2 4 3 before
      (table_of machine machine-IsKernel strtol_digit linux 2 4 3 before (listed ∷ []))
      (after_create machine machine-IsKernel strtol_digit linux 2 4 3 before (listed ∷ []))
      (perform_all machine 3
        (reopen_all
          (λ _. outcomes)
          (table_of machine machine-IsKernel strtol_digit linux 2 4 3 before (listed ∷ [])))
        (after_create machine machine-IsKernel strtol_digit linux 2 4 3 before (listed ∷ [])))
      7
unfolding machine before fds_before after_create create scan visit_fd parse_fd create_from_fd
    file_info is_whitelisted detach put perform_all
create-reopen_all_example =
    create-reopen_all machine machine-IsKernel strtol_digit linux 2 4 3 before (listed ∷ [])
      (λ _. outcomes) 3 listed-IsDirectory refl (λ _. outcomes-Succeeds) refl 7 (λ e. cc e)
