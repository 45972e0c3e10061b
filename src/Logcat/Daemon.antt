-- ===== src/Logcat/Daemon.antt =====
-- `runDaemon`, lines 76-120: from what logcat prints to what the log file gets.
use xposed.Prelude.{
  ◌==◌, ltb, if◌then◌else◌, bytes_of, starts_with, Bytes, length, get_or, ℕ, ◌+◌, ◌-◌, ◌*◌, Bool,
  false, not, ◌&&◌, ◌||◌, Option, none, some, List, [], ◌∷◌, ◌++◌,
}
use xposed.Startup.Defs.{fgets}

abbrev pub xposedlog_max_size : ℕ
xposedlog_max_size = 5 * 1024 * 1024

-- `char buf[512]`.
abbrev pub buf_size : ℕ
buf_size = 512

-- The text in an array: what stands before its first 0.
unfoldable pub c_text : Bytes → Bytes
c_text [] = []
c_text (x ∷ s) = if x == 0 then [] else x ∷ c_text s

-- `strstr(text, pattern) != NULL`.
unfoldable pub contains : (text pattern : Bytes) → Bool
contains [] pattern = starts_with pattern []
contains (x ∷ s) pattern = starts_with pattern (x ∷ s) || contains s pattern

-- Line 101.
unfoldable pub is_marker : (marker buf : Bytes) → Bool
is_marker marker buf =
    contains (c_text buf) (bytes_of "XposedStartupMarker") && contains (c_text buf) marker

-- Line 97: the beginning of a log buffer.
unfoldable pub is_beginning : Bytes → Bool
is_beginning buf = get_or buf 0 0 == b'-'

-- Line 112, in a locale that does not group digits.
abbrev pub full_message : Bytes
full_message = bytes_of "\nReached maximum log size (5120 kB), further lines won't be logged.\n"

-- Why the daemon exits.
pub data LogEnd : Type 0 where
  broken_pipe : LogEnd
  log_full : LogEnd

-- Lines 96-115, for the contents of `buf` after each `fgets`: what is written, and the end.
unfoldable pub copy_lines :
    (marker : Bytes) (found_marker : Bool) (total_size : ℕ) → List Bytes → Bytes × LogEnd
copy_lines marker found_marker total_size [] = ([], broken_pipe)
copy_lines marker found_marker total_size (buf ∷ bufs) =
    let text = c_text buf in
    let copies = found_marker && not (is_beginning buf) in
    let total = if copies then total_size + length text else total_size in
    let found = found_marker || (not (is_beginning buf) && is_marker marker buf) in
    let (log, how) = copy_lines marker found total bufs in
    if not copies
    then (log, how)
    else if ltb xposedlog_max_size total
    then (text ++ full_message, log_full)
    else (text ++ log, how)

-- The log file, given whether it and the pipe could be opened, and all that logcat prints.
unfoldable pub run_daemon :
    (opens_log opens_pipe : Bool) (marker pipe : Bytes) → Option (Bytes × LogEnd)
run_daemon opens_log opens_pipe marker pipe =
    if not opens_log || not opens_pipe
    then none
    else some (copy_lines marker false 0 (fgets buf_size (buf_size - 1) pipe))
