-- ===== src/Binder/Defs.antt =====
-- The methods of `XposedService`, lines 595-779. The caller's uid is an argument, and the texts of
-- error messages are constructors.
use xposed.Prelude.{
  ltb, leb, ◌==◌, if◌then◌else◌, Bytes, length, ℤ, pos, negsuc, pos_part, minus_one, is_positive,
  signed32, ◌+ℤ◌, eqb_ℤ, ℕ, suc, ◌+◌, ◌-◌, Bool, not, ◌&&◌, ◌||◌, Option, none, some, [], ◌∷◌,
}
use xposed.FileSystem.{Sys, done, fails, Stream, FileSystem}
use xposed.Membased.Shared.{Stat}
use xposed.Platform.{Errnos}
use xposed.Run.{◌>>=◌, ◌>>◌, Run, fault, returned, require, int_limit, memcpy}

abbrev pub uid_system : ℕ
uid_system = 1000

-- The messages that `readFile` formats.
pub data Message : Type 0 where
  no_message : Message
  stat_failed : ℕ → Message
  is_a_directory : Message
  offset_too_large : ℤ → ℕ → Message
  range_too_large : ℤ → ℤ → ℕ → Message
  allocation_failed : ℤ → Message
  fopen_failed : ℕ → Message
  fseek_failed : ℕ → ℤ → Message
  fread_failed : ℕ → Message

-- The arguments that a method of the service writes through pointers.
pub record Out : Type 0 where
  pub size : ℤ
  pub mtime : ℤ
  pub buffer : Option Bytes
  pub bytes_read : ℤ
  pub errormsg : Message

-- What `readFile` returns, with its outputs.
pub record Status : Type 0 where
  pub code : ℕ
  pub out : Out

-- A plain method's result and `errno`.
pub record Result : Type 0 where
  pub value : ℤ
  pub errno : ℕ

-- `addService`, given what the service manager returns. It succeeds or fails as that does.
unfoldable pub add_service : Errnos → Bool → ℕ → ℕ → (errno : ℕ) → ℤ → Result
add_service e is_system installer_uid uid errno registered =
    if not is_system || not (uid == installer_uid)
    then record { value = minus_one; errno = e.eperm }
    else record { value = registered; errno = errno }

-- `access`, whose mode is an `int`.
abbrev pub access_at : FileSystem → Bytes → ℤ → Sys (Unit {0})
access_at fs filename (pos mode) = fs.access filename mode
access_at fs filename (negsuc n) = fs.access_negative filename n

module _ (e : Errnos) (fs : FileSystem) where
  -- `filename` is, here and in the other methods, the text that the method's pointer points to.
  unfoldable pub access_file : (caller : ℕ) → Bytes → ℤ → (errno : ℕ) → Result
  access_file caller filename mode errno =
      if not (caller == uid_system)
      then record { value = minus_one; errno = e.eperm }
      else elim (access_at fs filename mode) [
        | done _ ↦ record { value = pos 0; errno = errno }
        | fails n ↦ record { value = minus_one; errno = n }
      ]

  -- The size and the time are written on success only.
  unfoldable pub stat_file : (caller : ℕ) → Bytes → (errno : ℕ) → ℤ × ℤ → Result × ℤ × ℤ
  stat_file caller filename errno (size, time) =
      if not (caller == uid_system)
      then (record { value = minus_one; errno = e.eperm }, size, time)
      else elim (fs.stat filename) [
        | done st ↦ (record { value = pos 0; errno = errno }, pos st.st_size, pos st.st_mtime)
        | fails n ↦ (record { value = minus_one; errno = n }, size, time)
      ]

-- `malloc` takes a `size_t`, to which a negative number is converted by adding `word`.
abbrev pub to_size_t : ℕ → ℤ → ℕ
to_size_t word (pos n) = n
to_size_t word (negsuc n) = word - suc n

-- `(*buffer)[length] = 0`: a fault outside the block.
abbrev pub terminate : ℤ → Bytes → Run Bytes
terminate (pos n) block = memcpy n (0 ∷ []) block
terminate (negsuc n) block = fault

module _ (e : Errnos) (word : ℕ) (malloc : ℕ → Option Bytes) (fs : FileSystem) where
  -- Lines 765-778. `offset` and `count` are at least 0 here.
  unfoldable pub read_stream : Stream → ℕ → ℕ → Bytes → Out → Run Status
  read_stream f offset count block o = do
    let r = f.read offset count
    block' ← memcpy 0 r.bytes block
    returned (
        if not (r.ferror == 0)
        then record {
          code = r.ferror;
          out = record o {
            buffer = none;
            bytes_read = minus_one;
            errormsg = fread_failed r.ferror;
          };
        }
        else record {
          code = 0;
          out = record o { buffer = some block'; bytes_read = pos (length r.bytes) };
        })

  -- Lines 745-763.
  unfoldable pub open_and_read : Bytes → ℕ → ℕ → Bytes → Out → Run Status
  open_and_read filename offset count block o = elim (fs.fopen filename) [
    | fails n ↦
        returned (record { code = n; out = record o { buffer = none; errormsg = fopen_failed n } })
    | done f ↦ elim (if ltb 0 offset then f.seek offset else none) [
      | some n ↦ returned (record {
        code = n;
        out = record o { buffer = none; errormsg = fseek_failed n (pos offset) };
      })
      | none ↦ read_stream f offset count block o
    ]
  ]

  -- Lines 737-743, and on. `length + 1` is computed as an `int`.
  unfoldable pub allocate_and_read : Bytes → ℕ → ℤ → Out → Run Status
  allocate_and_read filename offset count o = do
    require (ltb (pos_part count + 1) int_limit)
    elim (malloc (to_size_t word (count +ℤ pos 1))) [
      | none ↦ returned (record {
        code = e.enomem;
        out = record o { buffer = none; errormsg = allocation_failed (count +ℤ pos 1) };
      })
      | some block ↦ (do
        block' ← terminate count block
        open_and_read filename offset (pos_part count) block' o)
    ]

  -- Lines 727-735. The sum of two `int`s must be one.
  unfoldable pub check_length : Bytes → ℕ → ℤ → ℕ → Out → Run Status
  check_length filename offset count size o =
      let rest : Run Status =
        if size == 0
        then returned (record { code = 0; out = record o { bytes_read = pos 0 } })
        else if is_positive count
        then allocate_and_read filename offset count o
        else allocate_and_read filename offset (signed32 (size - offset)) o in
      if is_positive count
      then (do
        require (ltb (offset + pos_part count) int_limit)
        if ltb size (offset + pos_part count)
            then returned (record {
              code = e.einval;
              out = record o { errormsg = range_too_large (pos offset) count size };
            })
            else rest)
      else rest

  -- Lines 716-725: the new size and time, and the offset.
  unfoldable pub check_offset : Bytes → ℤ → ℤ → Stat → Out → Run Status
  check_offset filename offset count st o =
      let o' = record o { size = pos st.st_size; mtime = pos st.st_mtime } in
      if is_positive offset && leb st.st_size (pos_part offset)
      then returned (record {
        code = e.einval;
        out = record o' { errormsg = offset_too_large offset st.st_size };
      })
      else check_length filename (pos_part offset) count st.st_size o'

  -- Lines 697-714: the file's metadata, and a file that the caller knows already.
  unfoldable pub check_file : Bytes → ℤ → ℤ → Out → Run Status
  check_file filename offset count o = elim (fs.stat filename) [
    | fails n ↦ returned (record { code = n; out = record o { errormsg = stat_failed n } })
    | done st ↦
        if st.is_directory
        then returned (record { code = e.eisdir; out = record o { errormsg = is_a_directory } })
        else if eqb_ℤ o.size (pos st.st_size) && eqb_ℤ o.mtime (signed32 st.st_mtime)
        then returned (record { code = 0; out = o })
        else check_offset filename offset count st o
  ]

  -- `readFile`, lines 685-779.
  unfoldable pub read_file : (caller : ℕ) → Bytes → ℤ → ℤ → Out → Run Status
  read_file caller filename offset count o =
      if not (caller == uid_system)
      then returned (record { code = e.eperm; out = o })
      else check_file filename offset count (record o { buffer = none; bytes_read = minus_one })
