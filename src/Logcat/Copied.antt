-- ===== src/Logcat/Copied.antt =====
-- What the log file contains.
use xposed.Prelude.{
  if◌then◌else◌, ltb-of_le, Bool-cases, Bytes, length, length-append, ℕ, ◌+◌, ◌≤◌, ◌<◌, ◌≡◌, refl,
  inl, inr, Bool, true, false, not, ◌&&◌, List, [], ◌∷◌, ◌++◌, arith, ltb, leb, ◌==◌, ltb→le, ◌-◌,
  ap, ◌||◌, some, some-injective,
}
use xposed.Logcat.Daemon.{
  xposedlog_max_size, buf_size, c_text, is_marker, is_beginning, full_message, broken_pipe,
  copy_lines, LogEnd, run_daemon,
}
use xposed.Startup.Defs.{fgets}

-- What logcat prints behind the marker.
unfoldable pub after_marker : (marker : Bytes) → List Bytes → List Bytes
after_marker marker [] = []
after_marker marker (buf ∷ bufs) =
    if not (is_beginning buf) && is_marker marker buf then bufs else after_marker marker bufs

-- The texts of all buffers but those that begin with '-', as the lines with which a log buffer begins do.
unfoldable pub entries : List Bytes → Bytes
entries [] = []
entries (buf ∷ bufs) = if is_beginning buf then entries bufs else c_text buf ++ entries bufs

found-copy_lines :
    (marker : Bytes) (total : ℕ) (bufs : List Bytes)
    → total + length (entries bufs) ≤ xposedlog_max_size
    → copy_lines marker true total bufs ≡ (entries bufs, broken_pipe)
unfolding copy_lines entries
found-copy_lines marker total [] h = refl
found-copy_lines marker total (buf ∷ bufs) h = elim (Bool-cases (is_beginning buf)) [
  | inl b ↦
      let fits : total + length (entries bufs) ≤ xposedlog_max_size = ground (arith, b) in
      rw (b, found-copy_lines marker total bufs fits)
  | inr b ↦
      let whole : total + length (c_text buf ++ entries bufs) ≤ xposedlog_max_size =
        ground (arith, b) in
      let fits : total + length (c_text buf) + length (entries bufs) ≤ xposedlog_max_size =
        omega (arith, whole, length-append {0} (c_text buf) (entries bufs)) in
      rw (
        b,
        found-copy_lines marker (total + length (c_text buf)) bufs fits,
        ltb-of_le xposedlog_max_size (total + length (c_text buf)) (omega arith),
      )
]

-- The log has the texts of exactly those buffers behind the marker's that do not begin with '-', in their
-- order, if these texts are together no longer than the limit. So neither the beginnings of
-- log buffers are in it, nor what was logged before this start, nor a later part of a long line
-- that begins with '-'.
pub copy_lines-entries :
    (marker : Bytes) (bufs : List Bytes)
    → length (entries (after_marker marker bufs)) ≤ xposedlog_max_size
    → copy_lines marker false 0 bufs ≡ (entries (after_marker marker bufs), broken_pipe)
unfolding copy_lines after_marker entries
copy_lines-entries marker [] h = refl
copy_lines-entries marker (buf ∷ bufs) h =
    elim (Bool-cases (not (is_beginning buf) && is_marker marker buf)) [
      | inl b ↦
          let fits : 0 + length (entries bufs) ≤ xposedlog_max_size = ground (arith, b) in
          rw (b, found-copy_lines marker 0 bufs fits)
      | inr b ↦
          let fits : length (entries (after_marker marker bufs)) ≤ xposedlog_max_size =
            ground (arith, b) in
          rw (b, copy_lines-entries marker bufs fits)
    ]

-- Each is shorter than the array.
pub AllShort : List Bytes → Type 0
AllShort [] = Unit
AllShort (buf ∷ bufs) = (length buf < buf_size) × AllShort bufs

length-c_text : (s : Bytes) → length (c_text s) ≤ length s
unfolding c_text
length-c_text [] = omega arith
length-c_text (x ∷ s) = ground (arith, length-c_text s)

length-copy_lines :
    (marker : Bytes) (found : Bool) (total : ℕ) (bufs : List Bytes)
    → AllShort bufs
    → total ≤ xposedlog_max_size
    → total + length (copy_lines marker found total bufs).0
      < xposedlog_max_size + buf_size + length full_message
unfolding copy_lines AllShort
length-copy_lines marker found total [] h k = omega arith
length-copy_lines marker found total (buf ∷ bufs) (short, h) k =
    let found' = found || (not (is_beginning buf) && is_marker marker buf) in
    let n = total + length (c_text buf) in
    elim (Bool-cases (found && not (is_beginning buf))) [
      | inr b ↦ rw b (length-copy_lines marker found' total bufs h k)
      | inl b ↦ elim (Bool-cases (ltb xposedlog_max_size n)) [
        | inl over ↦
            rw (b, over)
              (omega (arith, length-c_text buf, length-append {0} (c_text buf) full_message))
        | inr under ↦
            let fits : n ≤ xposedlog_max_size = ltb→le xposedlog_max_size n under in
            let rest = length-copy_lines marker found' n bufs h fits in
            rw (b, under)
              (omega
                (arith, rest, length-append {0} (c_text buf) (copy_lines marker found' n bufs).0))
      ]
    ]

-- The first has at most so many bytes, the others fit into the array.
Fits : ℕ → List Bytes → Type 0
Fits room [] = Unit
Fits room (line ∷ lines) = (length line ≤ room) × AllShort lines

Fits-AllShort : (lines : List Bytes) → Fits (buf_size - 1) lines → AllShort lines
unfolding Fits AllShort
Fits-AllShort [] h = tt
Fits-AllShort (line ∷ lines) (h, k) = (omega arith, k)

Fits-one :
    (x room : ℕ) (lines : List Bytes)
    → 1 ≤ room
    → Fits (buf_size - 1) lines
    → Fits room ((x ∷ []) ∷ lines)
unfolding Fits
Fits-one x room lines h k = (omega arith, Fits-AllShort lines k)

Fits-more :
    (x room : ℕ) (lines : List Bytes)
    → 1 < room
    → Fits (room - 1) lines
    → Fits room (elim lines [ [] ↦ (x ∷ []) ∷ [] | line ∷ ls ↦ (x ∷ line) ∷ ls ])
unfolding Fits AllShort
Fits-more x room [] h k = (omega arith, tt)
Fits-more x room (line ∷ lines) h (first, others) = (omega arith, others)

fgets-Fits : (room : ℕ) (s : Bytes) → 1 ≤ room → Fits room (fgets buf_size room s)
unfolding fgets Fits
fgets-Fits room [] h = tt
fgets-Fits room (x ∷ s) h = elim (Bool-cases ((x == b'\n') || leb room 1)) [
  | inl ends ↦ rw ends (Fits-one x room _ h (fgets-Fits (buf_size - 1) s (omega arith)))
  | inr more ↦
      let long : 1 < room = ground (arith, more) in
      rw more (Fits-more x room _ long (fgets-Fits (room - 1) s (omega arith)))
]

-- Whatever logcat prints, the log file exceeds its limit by less than the array and the last message
-- together.
pub run_daemon-length :
    (opens_log opens_pipe : Bool) (marker pipe log : Bytes) (how : LogEnd)
    → run_daemon opens_log opens_pipe marker pipe ≡ some (log, how)
    → length log < xposedlog_max_size + buf_size + length full_message
unfolding run_daemon
run_daemon-length true true marker pipe log how e =
    let short = Fits-AllShort _ (fgets-Fits (buf_size - 1) pipe (omega arith)) in
    let bound = length-copy_lines marker false 0 _ short (omega arith) in
    let same : (copy_lines marker false 0 (fgets buf_size (buf_size - 1) pipe)).0 ≡ log =
      ap (λ (r : Bytes × LogEnd). r.0) (some-injective _ _ e) in
    omega (arith, bound, ap (λ (b : Bytes). length b) same)
run_daemon-length true false marker pipe log how e = cc e
run_daemon-length false o marker pipe log how e = cc e
