-- ===== src/Membased/Overflow.antt =====
-- Where `readFile` stays inside the block that it allocated, and where it does not.
use xposed.Prelude.{
  leb-of_le, Bytes, length, take, drop, length-append, length-take, length-drop, ℕ, ◌+◌, ◌≤◌, ◌<◌,
  ◌≡◌, ◌++◌, arith, ltb, ◌==◌, ltb-of_lt, ltb→le, Bool-cases, zero, suc, refl, ◌∙◌, ◌≢◌, inl, inr,
  pos, true, Option, [], ◌∷◌, take-append, signed32, sym, subst,
}
use xposed.FileSystem.{done, Stream, FileSystem}
use xposed.Membased.Client.{call_service, begin_call}
use xposed.Membased.Process.{Process, is_service_accessible}
use xposed.Membased.ReadFile.{
  put_offset, received, within_total, read_loop, read_chunks, read_file_call, put_read,
  read_file_call-chunks,
}
use xposed.Membased.Server.{content_size, serve_stream, serve_read}
use xposed.Membased.Shared.{
  ReadFileData, read_file, MemBasedState, Layout, read_member, op_read_file, Stat,
}
use xposed.Membased.WholeFile.{Allocates}
use xposed.Platform.{Errnos}
use xposed.Run.{fault, returned, memcpy, int_limit, memcpy-fault}

-- A read gives at most the bytes that were asked for.
abbrev pub ReadsWithin : (ℕ → FileSystem) → Type 0
ReadsWithin fs =
    (k : ℕ) (path : Bytes) (f : Stream)
    → (fs k).fopen path ≡ done f
    → (p : ℕ) → length (f.read p content_size).bytes ≤ content_size

length-memcpy :
    (at : ℕ) (source block : Bytes)
    → at + length source ≤ length block
    → (b : Bytes) × (memcpy at source block ≡ returned b) × (length b ≡ length block)
unfolding memcpy
length-memcpy at source block h = (
  take at block ++ (source ++ drop (at + length source) block),
  rw (leb-of_le _ _ h),
  omega (
    arith,
    length-append {0} (take at block) (source ++ drop (at + length source) block),
    length-append {0} source (drop (at + length source) block),
    length-take {0} at block,
    length-drop {0} (at + length source) block,
  ),
)

serve_stream-bytes_read :
    (l : Layout) (d : ReadFileData) (f : Stream) (sh : MemBasedState)
    → length (f.read d.offset content_size).bytes ≤ content_size
    → d.bytes_read ≤ content_size
    → (read_member l (serve_stream d f sh).member).bytes_read ≤ content_size
unfolding serve_stream
serve_stream-bytes_read l d f sh r h = ground arith

-- Whatever the service finds, it reports at most one buffer full of bytes.
serve_read-bytes_read :
    (l : Layout) (fs : ℕ → FileSystem) (k : ℕ) (d : ReadFileData) (sh : MemBasedState)
    → ReadsWithin fs
    → d.bytes_read ≤ content_size
    → sh.member ≡ read_file d
    → (read_member l (serve_read (fs k) d sh).member).bytes_read ≤ content_size
unfolding serve_read
serve_read-bytes_read l fs k d sh w h e = grind (arith, w, serve_stream-bytes_read)

module _ (e : Errnos) (l : Layout) (fs : ℕ → FileSystem) (w : ReadsWithin fs) where
  next_call-bytes_read :
      (k next : ℕ) (sh : MemBasedState)
      → (read_member l sh.member).bytes_read ≤ content_size
      → (read_member l
          (call_service l (fs k) op_read_file (put_offset l next sh)).member).bytes_read
        ≤ content_size
  unfolding call_service put_offset
  next_call-bytes_read k next sh h =
      serve_read-bytes_read l fs k (record (read_member l sh.member) { offset = next })
        (begin_call op_read_file (put_offset l next sh)) w h refl

  length-received : (d : ReadFileData) → length (received d) ≤ d.bytes_read
  length-received d = omega (arith, length-take {0} d.bytes_read d.content)

  -- The later chunks are checked against the total before they are copied.
  read_loop-ne-fault :
      (fuel k offset total : ℕ) (block : Bytes) (sh : MemBasedState)
      → total + 1 + content_size < int_limit
      → length block ≡ total + 1
      → (read_member l sh.member).bytes_read ≤ content_size
      → offset + (read_member l sh.member).bytes_read ≤ total + 1
      → read_loop e l fs fuel k offset total block sh ≢ fault
  unfolding read_loop within_total
  read_loop-ne-fault zero k offset total block sh small size one fits = λ p. cc
  read_loop-ne-fault (suc fuel) k offset total block sh small size one fits =
      elim (Bool-cases (read_member l sh.member).eof) [
        | inl at_end ↦ rw at_end (λ p. cc)
        | inr more ↦
            let next : ℕ = offset + (read_member l sh.member).bytes_read in
            let sh' : MemBasedState = call_service l (fs k) op_read_file (put_offset l next sh) in
            let one' : (read_member l sh'.member).bytes_read ≤ content_size =
              next_call-bytes_read k next sh one in
            elim (Bool-cases (sh'.error == 0)) [
              | inr failed ↦ rw (more, failed) (λ p. cc)
              | inl well ↦
                  elim (Bool-cases (ltb total (next + (read_member l sh'.member).bytes_read))) [
                    | inl busy ↦
                        rw
                          (
                            more,
                            well,
                            ltb-of_lt (next + (read_member l sh'.member).bytes_read) int_limit
                                (omega arith),
                            busy,
                          )
                          (λ p. cc)
                    | inr within ↦
                        let (block', copy, same) =
                          length-memcpy next (received (read_member l sh'.member)) block (
                            omega (
                              arith,
                              length-received (read_member l sh'.member),
                              ltb→le total (next + (read_member l sh'.member).bytes_read) within,
                            )) in
                        rw
                          (
                            more,
                            well,
                            ltb-of_lt (next + (read_member l sh'.member).bytes_read) int_limit
                                (omega arith),
                            within,
                            copy,
                          )
                          (read_loop-ne-fault fuel (k + 1) next total block' sh' small (same ∙ size)
                            one'
                            (omega (
                              arith,
                              ltb→le total (next + (read_member l sh'.member).bytes_read) within,
                            )))
                  ]
            ]
      ]

  -- Once the first chunk fits into the block, no later one leaves it: whatever the service finds
  -- on its calls, files that grow or shrink in between included, the rest of `readFile` commits
  -- no fault, for every amount of fuel. `malloc` succeeds, a read gives at most the bytes asked
  -- for, and the total size is 0 or more, so small that with the terminator and one more
  -- chunk it still is an `int`.
  pub read_chunks-ne-fault :
      (malloc : ℕ → Option Bytes) (fuel total : ℕ) (sh : MemBasedState)
      → Allocates malloc
      → (read_member l sh.member).total_size ≡ pos total
      → total + 1 + content_size < int_limit
      → (read_member l sh.member).bytes_read ≤ content_size
      → (read_member l sh.member).bytes_read ≤ total + 1
      → read_chunks e l fs malloc fuel sh ≢ fault
  unfolding read_chunks
  read_chunks-ne-fault malloc fuel total sh alloc size small one fits =
      let d : ReadFileData = read_member l sh.member in
      let (fresh, got, size_fresh) = alloc (total + 1) in
      let (with_end, end, size_ended) = length-memcpy total (0 ∷ []) fresh (omega arith) in
      let (block, copy, size_block) =
        length-memcpy 0 (received d) with_end (omega (arith, length-received d)) in
      rw (size, ltb-of_lt (total + 1) int_limit (omega arith), got, end, copy)
        (read_loop-ne-fault fuel 1 0 total block sh small (omega arith) one (omega arith))

-- Nothing checks the first chunk.
first_read :
    (l : Layout) (fs : FileSystem) (path : Bytes) (sh : MemBasedState) (st : Stat) (f : Stream)
    → fs.stat path ≡ done st
    → fs.fopen path ≡ done f
    → (let r = f.read 0 content_size in
        let reply = call_service l fs op_read_file (put_read l path sh) in
        (reply.error ≡ r.ferror)
        × ((read_member l reply.member).total_size ≡ signed32 st.st_size)
        × (received (read_member l reply.member) ≡ r.bytes))
unfolding call_service put_read
first_read l fs path sh st f stats opens = ground (
  arith,
  take-append (f.read 0 content_size).bytes
      (drop (length (f.read 0 content_size).bytes) (read_member l sh.member).content),
)

read_chunks-fault :
    (e : Errnos) (l : Layout) (fs : ℕ → FileSystem) (malloc : ℕ → Option Bytes) (fuel total : ℕ)
    (sh : MemBasedState)
    → Allocates malloc
    → (read_member l sh.member).total_size ≡ pos total
    → total + 1 < int_limit
    → total + 1 < length (received (read_member l sh.member))
    → read_chunks e l fs malloc fuel sh ≡ fault
unfolding read_chunks
read_chunks-fault e l fs malloc fuel total sh alloc size fits big =
    let (fresh, got, size_fresh) = alloc (total + 1) in
    let (with_end, end, size_ended) = length-memcpy total (0 ∷ []) fresh (omega arith) in
    rw (
      size,
      ltb-of_lt (total + 1) int_limit fits,
      got,
      end,
      memcpy-fault 0 (received (read_member l sh.member)) with_end (omega arith),
    )

-- In a process that may use the service, for a path that fits into the memory and a file that the
-- service can stat and open: if the first read, without an error, brings at least two bytes more than
-- the size that `stat` reported, `readFile` writes outside its block, once it is allocated and if
-- the size with the terminator is an `int`. So it is for a file that `stat` gives as empty and
-- whose first read brings two bytes or more, such as those of /proc.
pub read_file_call-overflows :
    (e : Errnos) (l : Layout) (fs : ℕ → FileSystem) (path_max : ℕ) (malloc : ℕ → Option Bytes)
    (fuel : ℕ) (p : Process) (path : Bytes) (bytes_read : ℕ) (sh : MemBasedState) (st : Stat)
    (f : Stream)
    → (is_service_accessible e p).0 ≡ true
    → length path < path_max
    → (fs 0).stat path ≡ done st
    → (fs 0).fopen path ≡ done f
    → (f.read 0 content_size).ferror ≡ 0
    → Allocates malloc
    → st.st_size + 1 < int_limit
    → st.st_size + 1 < length (f.read 0 content_size).bytes
    → read_file_call e l fs path_max malloc fuel p path bytes_read sh ≡ fault
read_file_call-overflows e l fs path_max malloc fuel p path bytes_read sh st f ok short stats opens
      good alloc fits big =
    let (error, total, bytes) = first_read l (fs 0) path sh st f stats opens in
    read_file_call-chunks e l fs path_max malloc fuel p path bytes_read sh _ fault ok short refl
      (error ∙ good)
      (read_chunks-fault e l fs malloc fuel st.st_size _ alloc (total ∙ size) fits
        (subst (λ (b : Bytes). st.st_size + 1 < length b) (sym bytes) big))
  where
    size : signed32 st.st_size ≡ pos st.st_size
    size = ground arith
