-- ===== src/Membased/WholeFile.antt =====
-- `readFile` on a file that stays as it is returns all of it, however many chunks that takes.
use xposed.Prelude.{
  ltb, Bytes, length, take, drop, signed32, ℕ, ◌≡◌, ◌++◌, arith, ap, take-append, zero, suc, ◌+◌,
  ◌*◌, ◌<◌, refl, [], ◌∷◌, Bool-cases, inl, inr, length-take, length-drop, take-append-drop,
  take-of_le, take-length-take, eq-nil, ◌≤◌, sym, ◌∙◌, true, append_assoc, ltb→lt, ltb→le, false,
  take-add, leb-of_le, ltb-of_lt, drop-of_le, pos, Option, some,
}
use xposed.FileSystem.{done, Stream, FileSystem, IsRegular}
use xposed.Membased.Answers.{IsReleased, make_idle-IsReleased}
use xposed.Membased.Client.{call_service, begin_call}
use xposed.Membased.Process.{Process, is_service_accessible}
use xposed.Membased.ReadFile.{
  received, finished, read_loop, Exit, read_loop-end, put_offset, read_loop-more, read_chunks,
  ReadReply, read_file_call, finish, put_read, read_file_call-chunks,
}
use xposed.Membased.Server.{content_size, serve_stream, serve_read}
use xposed.Membased.Shared.{
  Stat, ReadFileData, read_file, MemBasedState, Layout, read_member, op_read_file,
}
use xposed.Platform.{Errnos}
use xposed.Run.{returned, int_limit, Run, memcpy, memcpy-append}

-- The service finds this regular file under the path, on every call.
pub record Holds (fs : ℕ → FileSystem) (path contents : Bytes) (st : Stat) (f : Stream)
    : Type 0 where
  pub stats : (k : ℕ) → (fs k).stat path ≡ done st
  pub opens : (k : ℕ) → (fs k).fopen path ≡ done f
  pub size : st.st_size ≡ length contents
  pub regular : IsRegular f contents

-- `malloc` succeeds, and gives a block of the size asked for.
abbrev pub Allocates : (ℕ → Option Bytes) → Type 0
Allocates malloc = (n : ℕ) → (b : Bytes) × (malloc n ≡ some b) × (length b ≡ n)

module _ (l : Layout) (fs : ℕ → FileSystem) (path contents : Bytes) (st : Stat) (f : Stream) where
  -- The response to a request for the chunk at `offset`.
  record Chunk (offset : ℕ) (sh : MemBasedState) : Type 0 where
    no_error : sh.error ≡ 0
    same_path : (read_member l sh.member).path ≡ path
    total : (read_member l sh.member).total_size ≡ signed32 (length contents)
    bytes : received (read_member l sh.member) ≡ take content_size (drop offset contents)
    count : (read_member l sh.member).bytes_read ≡ length (take content_size (drop offset contents))
    at_end : (read_member l sh.member).eof ≡ ltb (length (drop offset contents)) content_size

  -- What the service stores for the chunk.
  chunk_data : ℕ → ReadFileData → ReadFileData
  chunk_data offset d =
      let bytes = take content_size (drop offset contents) in
      record d {
        bytes_read = length bytes;
        eof = ltb (length (drop offset contents)) content_size;
        content = bytes ++ drop (length bytes) d.content;
      }

  serve_stream-regular :
      (d : ReadFileData) (sh : MemBasedState)
      → IsRegular f contents
      → serve_stream d f sh ≡ record sh { member = read_file (chunk_data d.offset d); error = 0 }
  unfolding serve_stream chunk_data
  serve_stream-regular d sh r = ground (arith, r.seeks d.offset, r.reads d.offset content_size)

  serve_read-regular :
      (k : ℕ) (d : ReadFileData) (sh : MemBasedState)
      → Holds fs path contents st f
      → d.path ≡ path
      → serve_read (fs k) d sh ≡ record sh {
        member =
            read_file (chunk_data d.offset (record d { total_size = signed32 (length contents) }));
        error = 0;
      }
  unfolding serve_read
  serve_read-regular k d sh h e = ground (
    arith,
    h.stats k,
    h.opens k,
    serve_stream-regular (record d { total_size = signed32 (length contents) }) sh h.regular,
    ap signed32 h.size,
  )

  -- One call for the chunk at `d.offset`.
  call-Chunk :
      (k : ℕ) (d : ReadFileData) (sh : MemBasedState)
      → Holds fs path contents st f
      → d.path ≡ path
      → Chunk d.offset (call_service l (fs k) op_read_file (record sh { member = read_file d }))
  unfolding call_service chunk_data
  call-Chunk k d sh h e =
      rw (serve_read-regular k d (begin_call op_read_file (record sh { member = read_file d })) h e)
        (record {
          no_error = refl;
          same_path = e;
          total = refl;
          bytes = take-append (take content_size (drop d.offset contents)) _;
          count = refl;
          at_end = refl;
        })

  -- The block while the first `n` bytes have been read: behind them is room for the others, and the
  -- terminator.
  abbrev block_at : ℕ → Bytes → Bytes
  block_at n room = take n contents ++ (room ++ 0 ∷ [])

  -- The next chunk is copied behind the bytes that were read.
  copy_chunk :
      (next : ℕ) (room chunk : Bytes)
      → next + length room ≡ length contents
      → chunk ≡ take content_size (drop next contents)
      → memcpy next chunk (block_at next room)
        ≡ returned (block_at (next + length chunk) (drop (length chunk) room))
  copy_chunk next room chunk h e =
      ap (λ (n : ℕ). memcpy n chunk (block_at next room)) (sym read)
      ∙ ap (λ (t : Bytes). memcpy (length (take next contents)) chunk (take next contents ++ t))
          split
      ∙ memcpy-append (take next contents) chunk (take (length chunk) room) tail taken
      ∙ ap returned (
          sym (append_assoc (take next contents) chunk tail)
          ∙ ap (λ (t : Bytes). t ++ tail) (sym whole))
    where
      tail : Bytes
      tail = drop (length chunk) room ++ 0 ∷ []

      read : length (take next contents) ≡ next
      read = omega (arith, length-take {0} next contents)

      taken : length (take (length chunk) room) ≡ length chunk
      taken = omega (
        arith,
        length-take {0} (length chunk) room,
        ap length e,
        length-take {0} content_size (drop next contents),
        length-drop {0} next contents,
      )

      split : room ++ 0 ∷ [] ≡ take (length chunk) room ++ tail
      split =
          ap (λ (r : Bytes). r ++ 0 ∷ []) (sym (take-append-drop (length chunk) room))
          ∙ append_assoc (take (length chunk) room) (drop (length chunk) room) (0 ∷ [])

      exact : take (length chunk) (drop next contents) ≡ chunk
      exact =
          ap (λ (c : Bytes). take (length c) (drop next contents)) e
          ∙ take-length-take content_size (drop next contents)
          ∙ sym e

      whole : take (next + length chunk) contents ≡ take next contents ++ chunk
      whole =
          take-add next (length chunk) contents ∙ ap (λ (c : Bytes). take next contents ++ c) exact

  -- A loop that ends well has the whole file in the block.
  abbrev Completes : Run Exit → Type 0
  Completes r =
      (sh : MemBasedState) × (offset : ℕ) × (r ≡ returned (finished offset (contents ++ 0 ∷ []) sh))
      × (sh.error ≡ 0)
      × (offset + (read_member l sh.member).bytes_read ≡ length contents)

  loop_ends :
      (e : Errnos) (fuel k offset : ℕ) (room : Bytes) (sh : MemBasedState)
      → Chunk offset sh
      → (read_member l sh.member).eof ≡ true
      → offset + (read_member l sh.member).bytes_read + length room ≡ length contents
      → Completes (
          read_loop e l fs
            (suc fuel)
            k
            offset
            (length contents)
            (block_at (offset + (read_member l sh.member).bytes_read) room)
            sh)
  loop_ends e fuel k offset room sh c at_end eq = (
    sh,
    offset,
    read_loop-end e l fs fuel k offset (length contents) _ sh at_end
        ∙ ap (λ (b : Bytes). returned (finished offset b sh))
            (rw (eq-nil room nothing) (rw (take-of_le _ contents all) refl)),
    c.no_error,
    omega (arith, count, length-drop {0} offset contents),
  )
    where
      short : length (drop offset contents) < content_size
      short = ltb→lt _ _ (sym c.at_end ∙ at_end)

      count : (read_member l sh.member).bytes_read ≡ length (drop offset contents)
      count = omega (arith, short, c.count, length-take {0} content_size (drop offset contents))

      nothing : length room ≡ 0
      nothing = omega (arith, count, length-drop {0} offset contents)

      all : length contents ≤ offset + (read_member l sh.member).bytes_read
      all = omega (arith, count, length-drop {0} offset contents)

  -- A chunk that is not the last is full, and the next one fits behind it.
  record Next (k offset : ℕ) (room : Bytes) (sh : MemBasedState) : Type 0 where
    reply : MemBasedState
    call :
        call_service l
          (fs k)
          op_read_file
          (put_offset l (offset + (read_member l sh.member).bytes_read) sh)
        ≡ reply
    chunk : Chunk (offset + (read_member l sh.member).bytes_read) reply
    full : (read_member l sh.member).bytes_read ≡ content_size
    copied :
        length (received (read_member l reply.member)) ≡ (read_member l reply.member).bytes_read

  later-Chunk :
      (k offset : ℕ) (room : Bytes) (sh : MemBasedState)
      → Holds fs path contents st f
      → Chunk offset sh
      → (read_member l sh.member).eof ≡ false
      → Next k offset room sh
  unfolding put_offset
  later-Chunk k offset room sh h c more = record {
    reply = _;
    call = refl;
    chunk = chunk;
    full = omega (
      arith,
      c.count,
      length-take {0} content_size (drop offset contents),
      ltb→le _ _ (sym c.at_end ∙ more),
    );
    copied = ap length chunk.bytes ∙ sym chunk.count;
  }
    where
      next : ℕ
      next = offset + (read_member l sh.member).bytes_read

      chunk : Chunk next (call_service l (fs k) op_read_file (put_offset l next sh))
      chunk = call-Chunk k (record (read_member l sh.member) { offset = next }) sh h c.same_path

  read_loop-Completes :
      (e : Errnos) (fuel k offset : ℕ) (room : Bytes) (sh : MemBasedState)
      → Holds fs path contents st f
      → length contents + 1 < int_limit
      → Chunk offset sh
      → length contents < offset + fuel * content_size
      → offset + (read_member l sh.member).bytes_read + length room ≡ length contents
      → Completes (
          read_loop e l fs fuel k offset
            (length contents)
            (block_at (offset + (read_member l sh.member).bytes_read) room)
            sh)
  read_loop-Completes e zero k offset room sh h fits c enough eq = absurd (omega arith)
  read_loop-Completes e (suc fuel) k offset room sh h fits c enough eq =
      elim (Bool-cases (read_member l sh.member).eof) [
        | inl at_end ↦ loop_ends e fuel k offset room sh c at_end eq
        | inr more ↦
            let n = later-Chunk k offset room sh h c more in
            let next : ℕ = offset + (read_member l sh.member).bytes_read in
            let bytes : Bytes = received (read_member l n.reply.member) in
            let full : (read_member l sh.member).bytes_read ≡ content_size = n.full in
            let copied : length bytes ≡ (read_member l n.reply.member).bytes_read = n.copied in
            let below : (read_member l n.reply.member).bytes_read ≤ length room = omega (
              arith,
              n.chunk.count,
              length-take {0} content_size (drop next contents),
              length-drop {0} next contents,
            ) in
            rw
              (read_loop-more e l fs fuel k offset next (length contents) (block_at next room) _ sh
                n.reply more refl n.call n.chunk.no_error (omega arith) (omega arith)
                (copy_chunk next room bytes eq n.chunk.bytes))
              (rw n.copied (
                read_loop-Completes e fuel (k + 1) next
                  (drop (read_member l n.reply.member).bytes_read room) n.reply h fits n.chunk
                  (omega arith)
                  (omega (arith, length-drop {0} (read_member l n.reply.member).bytes_read room))))
      ]

  terminate :
      (fresh : Bytes)
      → length fresh ≡ length contents + 1
      → memcpy (length contents) (0 ∷ []) fresh
        ≡ returned (block_at 0 (take (length contents) fresh))
  unfolding memcpy
  terminate fresh h = rw (
    leb-of_le (length contents + 1) (length fresh) (omega arith),
    drop-of_le (length contents + 1) fresh (omega arith),
  )

  total_size : length contents + 1 < int_limit → signed32 (length contents) ≡ pos (length contents)
  total_size fits = ground arith

  read_chunks-Completes :
      (e : Errnos) (malloc : ℕ → Option Bytes) (fuel : ℕ) (sh : MemBasedState)
      → Holds fs path contents st f
      → length contents + 1 < int_limit
      → Allocates malloc
      → Chunk 0 sh
      → length contents < fuel * content_size
      → Completes (read_chunks e l fs malloc fuel sh)
  unfolding read_chunks
  read_chunks-Completes e malloc fuel sh h fits alloc c enough =
      let (fresh, got, size) = alloc (length contents + 1) in
      let room : Bytes = take (length contents) fresh in
      let n : ℕ = (read_member l sh.member).bytes_read in
      let same : length (received (read_member l sh.member)) ≡ n =
        ap length c.bytes ∙ sym c.count in
      let wide : length room ≡ length contents =
        omega (arith, length-take {0} (length contents) fresh) in
      rw
        (
          c.total,
          total_size fits,
          ltb-of_lt _ _ fits,
          got,
          terminate fresh size,
          copy_chunk 0 room (received (read_member l sh.member)) (omega arith) c.bytes,
        )
        (rw same (
          read_loop-Completes e fuel 1 0 (drop n room) sh h fits c (omega arith) (
            omega (arith, length-drop {0} n room, c.count, length-take {0} content_size contents))))

-- Where the service may be used, the path fits, `malloc` succeeds and the file does not change
-- during the call, `readFile` returns a block with the whole file and a terminator, reports its
-- length, leaves `errno` at 0 and sets the service free. The file is shorter than the largest
-- `int`, and the loop gets fuel for one round per chunk.
pub read_file_call-whole :
    (e : Errnos) (l : Layout) (fs : ℕ → FileSystem) (path_max : ℕ) (malloc : ℕ → Option Bytes)
    (fuel : ℕ) (p : Process) (path contents : Bytes) (bytes_read : ℕ) (sh : MemBasedState)
    (st : Stat) (f : Stream)
    → (is_service_accessible e p).0 ≡ true
    → length path < path_max
    → Holds fs path contents st f
    → Allocates malloc
    → length contents + 1 < int_limit
    → length contents < fuel * content_size
    → (r : ReadReply) × (read_file_call e l fs path_max malloc fuel p path bytes_read sh
        ≡ returned r)
      × (r.value ≡ some (contents ++ 0 ∷ []))
      × (r.bytes_read ≡ length contents)
      × (r.process ≡ record p { errno = 0 })
      × IsReleased r.memory
unfolding finish put_read
read_file_call-whole e l fs path_max malloc fuel p path contents bytes_read sh st f ok short h alloc
      fits enough =
    let d : ReadFileData = record (read_member l sh.member) { path = path; offset = 0 } in
    let c = call-Chunk l fs path contents st f 0 d sh h refl in
    let (sh', offset, ends, no_error, all) =
      read_chunks-Completes l fs path contents st f e malloc fuel _ h fits alloc c enough in
    (
      finish l p (finished offset (contents ++ 0 ∷ []) sh'),
      read_file_call-chunks e l fs path_max malloc fuel p path bytes_read sh _ _ ok short refl
          c.no_error ends,
      rw no_error,
      all,
      rw no_error,
      make_idle-IsReleased sh',
    )
