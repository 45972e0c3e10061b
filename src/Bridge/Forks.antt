-- ===== src/Bridge/Forks.antt =====
-- `closeFilesBeforeForkNative` and `reopenFilesAfterForkNative`, lines 171-181 of libxposed_art.cpp.
use xposed.Prelude.{Bytes, ℤ, ℕ, Bool, Option, none, List}
use xposed.Fd.Info.{Config, Info, Call, Outcomes}
use xposed.Fd.Table.{create, reopen_all, Entry}
use xposed.Run.{◌>>=◌, Run, returned, non_null}

-- `gClosedFdTable`, which may be null.
abbrev pub ClosedFdTable : Type 0
ClosedFdTable = Option (List (ℕ × Info))

-- Lines 173-175: the table, and what happened to the descriptors.
unfoldable pub close_files :
    (strtol : Bytes → ℤ × Bytes)
    → Config
    → (o_rdwr : ℕ) → Option (ℕ × List Entry)
    → (closed_dir : Bool) → ClosedFdTable × List Call
close_files strtol c o_rdwr dir closed_dir =
    let t = create strtol c o_rdwr dir closed_dir in (t.open_fd_map, t.calls)

-- Lines 177-181.
unfoldable pub reopen_files : (ℕ → Outcomes) → ClosedFdTable → Run (ClosedFdTable × List Call)
reopen_files k table = do m ← non_null table; returned (none, reopen_all k m)
