-- ===== src/Membased/ReadFile.antt =====
-- xposed_service.cpp, lines 314-371: the client's `readFile`, chunk by chunk.
use xposed.Prelude.{
  ltb, ◌==◌, if◌then◌else◌, Bytes, take, ℕ, zero, suc, ◌+◌, not, Option, none, some, [], ◌∷◌,
  ltb-of_lt, ltb-of_le, ◌≤◌, ◌<◌, ◌≡◌, true, false, length,
}
use xposed.FileSystem.{FileSystem}
use xposed.Membased.Client.{make_idle, is_too_long, call_service, not-is_too_long}
use xposed.Membased.Process.{Process, is_service_accessible, accessible-same}
use xposed.Membased.Shared.{
  op_read_file, ReadFileData, read_file, MemBasedState, Layout, read_member,
}
use xposed.Platform.{Errnos}
use xposed.Run.{
  ◌>>=◌, ◌>>◌, Run, out_of_fuel, returned, require, non_null, non_negative, int_limit, memcpy,
}

-- What `readFile` returns: the block and the length it reports, or a null pointer.
pub record ReadReply : Type 0 where
  pub value : Option Bytes
  pub bytes_read : ℕ
  pub process : Process
  pub memory : MemBasedState

-- How the loop ends: at the end of the file, or at `bail`.
pub data Exit : Type 0 where
  finished : ℕ → Bytes → MemBasedState → Exit
  bailed : MemBasedState → Exit

unfoldable pub put_read : Layout → Bytes → MemBasedState → MemBasedState
put_read l path sh = record sh {
  member = read_file (record (read_member l sh.member) { path = path; offset = 0 });
}

unfoldable pub put_offset : Layout → ℕ → MemBasedState → MemBasedState
put_offset l offset sh = record sh {
  member = read_file (record (read_member l sh.member) { offset = offset });
}

-- `free` the block if there was an error; `bytesRead` stays 0 unless the end was reached.
unfoldable pub finish : Layout → Process → Exit → ReadReply
finish l p (bailed sh) = record {
  value = none;
  bytes_read = 0;
  process = record p { errno = sh.error };
  memory = make_idle sh;
}
finish l p (finished offset block sh) = record {
  value = if sh.error == 0 then some block else none;
  bytes_read = offset + (read_member l sh.member).bytes_read;
  process = record p { errno = sh.error };
  memory = make_idle sh;
}

-- The bytes that the service has put into the shared buffer.
abbrev pub received : ReadFileData → Bytes
received d = take d.bytes_read d.content

-- The test on a later chunk: with more bytes than the total, `shared->error` becomes EBUSY.
unfoldable pub within_total : Errnos → ℕ → ℕ → MemBasedState → Run Exit → Run Exit
within_total e total end sh rest =
    if ltb total end then returned (bailed (record sh { error = e.ebusy })) else rest

module _ (e : Errnos) (l : Layout) (fs : ℕ → FileSystem) where
  -- `while (!data->eof)`: `fs k` is what the service finds on the k-th call.
  unfoldable pub read_loop : ℕ → ℕ → ℕ → ℕ → Bytes → MemBasedState → Run Exit
  read_loop zero k offset total block sh = out_of_fuel
  read_loop (suc fuel) k offset total block sh =
      let d = read_member l sh.member in
      let next = offset + d.bytes_read in
      let sh' = call_service l (fs k) op_read_file (put_offset l next sh) in
      let d' = read_member l sh'.member in
      let rest : Run Exit = (do
        require (ltb (next + d'.bytes_read) int_limit)
        within_total e total (next + d'.bytes_read) sh' (do
          block' ← memcpy next (received d') block
          read_loop fuel (k + 1) next total block' sh')) in
      if d.eof
      then returned (finished offset block sh)
      else if not (sh'.error == 0)
      then returned (bailed sh')
      else rest

  -- The part after the first successful call.
  unfoldable pub read_chunks : (ℕ → Option Bytes) → ℕ → MemBasedState → Run Exit
  unfolding read_loop
  read_chunks malloc fuel sh = do
    let d = read_member l sh.member
    total ← non_negative d.total_size
    require (ltb (total + 1) int_limit)
    fresh ← non_null (malloc (total + 1))
    terminated ← memcpy total (0 ∷ []) fresh
    block ← memcpy 0 (received d) terminated
    read_loop fuel 1 0 total block sh

  -- The two ways on from the head of the loop.
  pub read_loop-end :
      (fuel k offset total : ℕ) (block : Bytes) (sh : MemBasedState)
      → (read_member l sh.member).eof ≡ true
      → read_loop (suc fuel) k offset total block sh ≡ returned (finished offset block sh)
  unfolding read_loop
  read_loop-end fuel k offset total block sh h = rw h

  pub read_loop-more :
      (fuel k offset next total : ℕ) (block block' : Bytes) (sh sh' : MemBasedState)
      → (read_member l sh.member).eof ≡ false
      → offset + (read_member l sh.member).bytes_read ≡ next
      → call_service l (fs k) op_read_file (put_offset l next sh) ≡ sh'
      → sh'.error ≡ 0
      → next + (read_member l sh'.member).bytes_read < int_limit
      → next + (read_member l sh'.member).bytes_read ≤ total
      → memcpy next (received (read_member l sh'.member)) block ≡ returned block'
      → read_loop (suc fuel) k offset total block sh ≡ read_loop fuel (k + 1) next total block' sh'
  unfolding read_loop within_total
  read_loop-more fuel k offset next total block block' sh sh' more n call no_error int le copy =
      rw (more, n, call, no_error, ltb-of_lt _ _ int, ltb-of_le total _ le, copy)

  module _ (path_max : ℕ) where
    -- `bytes_read` is the caller's variable, which is left alone where the service is out of reach.
    unfoldable pub read_file_call :
        (ℕ → Option Bytes) → ℕ → Process → Bytes → ℕ → MemBasedState → Run ReadReply
    unfolding finish put_read
    read_file_call malloc fuel p path bytes_read sh =
        let (accessible, p') = is_service_accessible e p in
        let sh' = call_service l (fs 0) op_read_file (put_read l path sh) in
        let chunks : Run ReadReply = (do
          exit ← read_chunks malloc fuel sh'
          returned (finish l p' exit)) in
        if not accessible
        then returned (record { value = none; bytes_read = bytes_read; process = p'; memory = sh })
        else if is_too_long path_max path
        then returned (record {
          value = none;
          bytes_read = 0;
          process = record p' { errno = e.enametoolong };
          memory = sh;
        })
        else if not (sh'.error == 0)
        then returned (finish l p' (bailed sh'))
        else chunks

    -- The way through the chunks.
    pub read_file_call-chunks :
        (malloc : ℕ → Option Bytes) (fuel : ℕ) (p : Process) (path : Bytes) (bytes_read : ℕ)
        (sh sh' : MemBasedState) (chunks : Run Exit)
        → (is_service_accessible e p).0 ≡ true
        → length path < path_max
        → call_service l (fs 0) op_read_file (put_read l path sh) ≡ sh'
        → sh'.error ≡ 0
        → read_chunks malloc fuel sh' ≡ chunks
        → read_file_call malloc fuel p path bytes_read sh
          ≡ (chunks >>= λ exit. returned (finish l p exit))
    unfolding read_file_call
    read_file_call-chunks malloc fuel p path bytes_read sh sh' chunks ok short call no_error run =
        rw (accessible-same e p ok, not-is_too_long path_max path short, call, run, no_error)
