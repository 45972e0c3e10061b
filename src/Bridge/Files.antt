-- ===== src/Bridge/Files.antt =====
-- The methods of `ZygoteService`, lines 272-331 of libxposed_common.cpp, which call the functions of
-- the memory-based service (xposed.cpp, lines 413-415).
use xposed.Prelude.{
  ◌==◌, leb, if◌then◌else◌, Bytes, length, take, is_zero, ℕ, Bool, not, Option, none, some,
}
use xposed.FileSystem.{FileSystem}
use xposed.Membased.Client.{Reply, access_file_call, stat_file_call}
use xposed.Membased.Process.{Process}
use xposed.Membased.ReadFile.{ReadReply, read_file_call}
use xposed.Membased.Shared.{Stat, MemBasedState, Layout}
use xposed.Platform.{Errnos}
use xposed.Run.{◌>>=◌, ◌>>◌, Run, returned, require}

-- What Java gets: a value, or an exception.
pub data Java {ℓ} (A : Type ℓ) : Type ℓ where
  gives : A → Java A
  file_not_found : Java A
  io_exception : ℕ → Java A
  out_of_memory : Java A

-- Lines 288-292 and 309-313.
unfoldable pub file_error {ℓ} : {A : Type ℓ} → Errnos → ℕ → Java A
file_error e errno = if errno == e.enoent then file_not_found else io_exception errno

module _ (e : Errnos) (path_max : ℕ) (l : Layout) where
  unfoldable pub check_file_access : FileSystem → Process → Bytes → ℕ → MemBasedState → Reply Bool
  check_file_access fs p filename mode sh =
      let r = access_file_call e path_max l fs p filename mode sh in
      record { value = is_zero r.value; process = r.process; memory = r.memory }

  -- `garbage` is in the structure before the call. The result is the size and the time.
  unfoldable pub stat_for_java :
      FileSystem → Process → Bytes → (garbage : Stat) → MemBasedState → Reply (Java (ℕ × ℕ))
  stat_for_java fs p filename garbage sh =
      let r = stat_file_call e path_max l fs p filename garbage sh in
      record {
        value =
            if not (is_zero r.value.0)
            then file_error e r.process.errno
            else gives (r.value.1.st_size, r.value.1.st_mtime);
        process = r.process;
        memory = r.memory;
      }

  -- The array of bytes, given whether it can be allocated.
  unfoldable pub to_array : (allocates : Bool) → ReadReply → Run (Java Bytes)
  to_array allocates r = elim r.value [
    | none ↦ returned (file_error e r.process.errno)
    | some content ↦ if not allocates then returned out_of_memory else (do
      require (leb r.bytes_read (length content))
      returned (gives (take r.bytes_read content)))
  ]

  unfoldable pub read_for_java :
      (ℕ → FileSystem)
      → (ℕ → Option Bytes)
      → (fuel : ℕ) (allocates : Bool) → Process
      → Bytes
      → MemBasedState
      → Run (Reply (Java Bytes))
  read_for_java fs malloc fuel allocates p filename sh = do
    r ← read_file_call e l fs path_max malloc fuel p filename 0 sh
    array ← to_array allocates r
    returned (record { value = array; process = r.process; memory = r.memory })
