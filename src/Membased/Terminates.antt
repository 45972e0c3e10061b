-- ===== src/Membased/Terminates.antt =====
-- That the client's `readFile` ends.
use xposed.Prelude.{
  Bytes, length, ℕ, ◌<◌, ◌≡◌, ◌⊎◌, true, arith, ltb, leb, ◌==◌, ltb→le, Bool-cases, signed32, zero,
  suc, ◌+◌, refl, sym, ap, subst, ◌∙◌, ◌≢◌, inl, inr, ◌≤◌, Option, ltb→lt, ℤ, pos, negsuc, none,
  some, [], ◌∷◌,
}
use xposed.FileSystem.{done, fails, Stream, FileSystem, Sys-cases}
use xposed.Membased.Client.{begin_call, call_service, is_too_long}
use xposed.Membased.Process.{Process, is_service_accessible}
use xposed.Membased.ReadFile.{
  put_read, put_offset, within_total, read_loop, read_chunks, read_file_call, received,
}
use xposed.Membased.Server.{content_size, serve_stream, serve_read}
use xposed.Membased.Shared.{Layout, ReadFileData, MemBasedState, read_member, op_read_file}
use xposed.Platform.{Errnos}
use xposed.Run.{Run, out_of_fuel, ◌>>=◌, int_limit, memcpy, fault, returned, non_null, non_negative}

-- The documented behaviour of the calls: an error has a number, and a read that neither fails nor meets the
-- end of the file gives at least one byte. What is in the file may change from call to call.
pub record Advances (fs : ℕ → FileSystem) : Type 0 where
  pub stat_fails : (k : ℕ) (path : Bytes) (n : ℕ) → (fs k).stat path ≡ fails n → 0 < n
  pub fopen_fails : (k : ℕ) (path : Bytes) (n : ℕ) → (fs k).fopen path ≡ fails n → 0 < n
  pub reads :
      (k : ℕ) (path : Bytes) (f : Stream)
      → (fs k).fopen path ≡ done f
      → (p : ℕ)
      → ((f.read p content_size).feof ≡ true)
        ⊎ (0 < (f.read p content_size).ferror)
        ⊎ (0 < length (f.read p content_size).bytes)

-- The end of the file, or some bytes.
abbrev pub Moves : ReadFileData → Type 0
Moves d = (d.eof ≡ true) ⊎ (0 < d.bytes_read)

serve_stream-Moves :
    (l : Layout) (d : ReadFileData) (f : Stream) (sh : MemBasedState)
    → ((f.read d.offset content_size).feof ≡ true)
      ⊎ (0 < (f.read d.offset content_size).ferror)
      ⊎ (0 < length (f.read d.offset content_size).bytes)
    → (d.offset ≡ 0) ⊎ (0 < d.bytes_read)
    → (serve_stream d f sh).error ≡ 0
    → Moves (read_member l (serve_stream d f sh).member)
unfolding serve_stream
serve_stream-Moves l d f sh reads ready e = ground arith

bind-ne-out_of_fuel {κ} :
    {A : Type 0} {B : Type κ} (m : Run A) (f : A → Run B)
    → m ≢ out_of_fuel
    → ((a : A) → m ≡ returned a → f a ≢ out_of_fuel)
    → (m >>= f) ≢ out_of_fuel
bind-ne-out_of_fuel out_of_fuel f h k = λ p. h refl
bind-ne-out_of_fuel fault f h k = λ p. cc p
bind-ne-out_of_fuel (returned a) f h k = k a refl

non_negative-ne-out_of_fuel : (n : ℤ) → non_negative n ≢ out_of_fuel
non_negative-ne-out_of_fuel (pos n) = λ p. cc p
non_negative-ne-out_of_fuel (negsuc n) = λ p. cc p

non_null-ne-out_of_fuel : {A : Type 0} (o : Option A) → non_null o ≢ out_of_fuel
non_null-ne-out_of_fuel none = λ p. cc p
non_null-ne-out_of_fuel (some a) = λ p. cc p

module _ (e : Errnos) (l : Layout) (fs : ℕ → FileSystem) (law : Advances fs) where
  serve_read-Moves :
      (k : ℕ) (d : ReadFileData) (sh : MemBasedState)
      → (d.offset ≡ 0) ⊎ (0 < d.bytes_read)
      → (serve_read (fs k) d sh).error ≡ 0
      → Moves (read_member l (serve_read (fs k) d sh).member)
  unfolding serve_read
  serve_read-Moves k d sh ready zero_error = elim (Sys-cases ((fs k).stat d.path)) [
    | inr (n, failed) ↦
        let positive = law.stat_fails k d.path n failed in
        let same : (serve_read (fs k) d sh).error ≡ n = rw (serve_read, failed) in
        absurd (omega (arith, positive, same))
    | inl (st, found) ↦
        let d' : ReadFileData = record d { total_size = signed32 st.st_size } in
        elim (Sys-cases ((fs k).fopen d.path)) [
          | inr (n, failed) ↦
              let positive = law.fopen_fails k d.path n failed in
              let same : (serve_read (fs k) d sh).error ≡ n = rw (serve_read, found, failed) in
              absurd (omega (arith, positive, same))
          | inl (f, opened) ↦
              let same : serve_read (fs k) d sh ≡ serve_stream d' f sh =
                rw (serve_read, found, opened) in
              let fine : (serve_stream d' f sh).error ≡ 0 =
                ap (λ (m : MemBasedState). m.error) (sym same) ∙ zero_error in
              subst (λ (m : MemBasedState). Moves (read_member l m.member)) (sym same)
                (serve_stream-Moves l d' f sh (law.reads k d.path f opened d.offset) ready fine)
        ]
  ]

  -- A later call, after one that moved on.
  next_call-Moves :
      (k next : ℕ) (sh : MemBasedState)
      → 0 < (read_member l sh.member).bytes_read
      → (call_service l (fs k) op_read_file (put_offset l next sh)).error ≡ 0
      → Moves (read_member l (call_service l (fs k) op_read_file (put_offset l next sh)).member)
  unfolding call_service put_offset
  next_call-Moves k next sh some_bytes zero_error =
      serve_read-Moves k (record (read_member l sh.member) { offset = next })
        (begin_call op_read_file (put_offset l next sh)) (inr some_bytes) zero_error

  first_call-Moves :
      (path : Bytes) (sh : MemBasedState)
      → (call_service l (fs 0) op_read_file (put_read l path sh)).error ≡ 0
      → Moves (read_member l (call_service l (fs 0) op_read_file (put_read l path sh)).member)
  unfolding call_service put_read
  first_call-Moves path sh zero_error =
      serve_read-Moves 0 (record (read_member l sh.member) { path = path; offset = 0 })
        (begin_call op_read_file (put_read l path sh)) (inl refl) zero_error

  memcpy-returns {κ} :
      {B : Type κ} (at : ℕ) (source block : Bytes) (f : Bytes → Run B)
      → ((b : Bytes) → f b ≢ out_of_fuel)
      → (memcpy at source block >>= f) ≢ out_of_fuel
  unfolding memcpy
  memcpy-returns at source block f rest =
      elim (Bool-cases (leb (at + length source) (length block))) [
        | inl fits ↦ rw (memcpy, fits) (rest _)
        | inr small ↦ rw (memcpy, small) (λ p. cc p)
      ]

  -- Each call that does not end the loop moves the offset, and beyond the total the loop ends.
  read_loop-ne-out_of_fuel :
      (fuel k offset total : ℕ) (block : Bytes) (sh : MemBasedState)
      → 0 < fuel
      → ((read_member l sh.member).eof ≡ true)
        ⊎ ((0 < (read_member l sh.member).bytes_read)
            × (total + 1 < offset + (read_member l sh.member).bytes_read + fuel))
      → read_loop e l fs fuel k offset total block sh ≢ out_of_fuel
  unfolding read_loop within_total
  read_loop-ne-out_of_fuel zero k offset total block sh enough moves = absurd (omega arith)
  read_loop-ne-out_of_fuel (suc fuel) k offset total block sh enough (inl at_end) =
      rw at_end (λ p. cc p)
  read_loop-ne-out_of_fuel (suc fuel) k offset total block sh enough (inr (moves, room)) =
      let next : ℕ = offset + (read_member l sh.member).bytes_read in
      let sh' : MemBasedState = call_service l (fs k) op_read_file (put_offset l next sh) in
      let end : ℕ = next + (read_member l sh'.member).bytes_read in
      elim (Bool-cases (read_member l sh.member).eof) [
        | inl at_end ↦ rw at_end (λ p. cc p)
        | inr more ↦ elim (Bool-cases (sh'.error == 0)) [
          | inr failed ↦ rw (more, failed) (λ p. cc p)
          | inl well ↦ elim (Bool-cases (ltb end int_limit)) [
            | inr over ↦ rw (more, well, over) (λ p. cc p)
            | inl below ↦ elim (Bool-cases (ltb total end)) [
              | inl busy ↦ rw (more, well, below, busy) (λ p. cc p)
              | inr within ↦
                  let le = ltb→le total end within in
                  let zero_error : sh'.error ≡ 0 = ground arith in
                  let left : 0 < fuel = omega arith in
                  let on : ((read_member l sh'.member).eof ≡ true)
                      ⊎ ((0 < (read_member l sh'.member).bytes_read)
                          × (total + 1 < next + (read_member l sh'.member).bytes_read + fuel)) =
                    elim (next_call-Moves k next sh moves zero_error) [
                      | inl at_last ↦ inl at_last
                      | inr bytes ↦ inr (bytes, omega arith)
                    ] in
                  rw (more, well, below, within)
                    (memcpy-returns next _ block _
                      (λ b. read_loop-ne-out_of_fuel fuel (k + 1) next total b sh' left on))
            ]
          ]
        ]
      ]

  read_chunks-ne-out_of_fuel :
      (malloc : ℕ → Option Bytes) (fuel : ℕ) (sh : MemBasedState)
      → int_limit ≤ fuel
      → Moves (read_member l sh.member)
      → read_chunks e l fs malloc fuel sh ≢ out_of_fuel
  unfolding read_chunks
  read_chunks-ne-out_of_fuel malloc fuel sh enough moves =
      let d = read_member l sh.member in
      bind-ne-out_of_fuel (non_negative d.total_size) _ (non_negative-ne-out_of_fuel d.total_size)
        (λ total size. elim (Bool-cases (ltb (total + 1) int_limit)) [
          | inr large ↦ rw large (λ p. cc p)
          | inl small ↦
              let below = ltb→lt (total + 1) int_limit small in
              rw small (
                bind-ne-out_of_fuel (non_null (malloc (total + 1))) _
                  (non_null-ne-out_of_fuel (malloc (total + 1)))
                  (λ fresh got. memcpy-returns total (0 ∷ []) fresh _ (λ terminated.
                    memcpy-returns 0 (received d) terminated _ (λ block.
                      read_loop-ne-out_of_fuel fuel 1 0 total block sh (omega arith) (elim moves [
                        | inl at_end ↦ inl at_end
                        | inr bytes ↦ inr (bytes, omega arith)
                      ])))))
        ])

  -- Where errors have numbers and a read gives a byte, an error or the end, `readFile` ends: fuel
  -- for `2 ^ 31` chunks is enough for every path, also of a file that grows all the time, and
  -- whether memory is given or not. It does so too where a seek fails without an error, since the
  -- offset still moves.
  pub read_file_call-ne-out_of_fuel :
      (path_max : ℕ) (malloc : ℕ → Option Bytes) (fuel : ℕ) (p : Process) (path : Bytes)
      (bytes_read : ℕ) (sh : MemBasedState)
      → int_limit ≤ fuel
      → read_file_call e l fs path_max malloc fuel p path bytes_read sh ≢ out_of_fuel
  unfolding read_file_call
  read_file_call-ne-out_of_fuel path_max malloc fuel p path bytes_read sh enough =
      let sh' : MemBasedState = call_service l (fs 0) op_read_file (put_read l path sh) in
      elim (Bool-cases (is_service_accessible e p).0) [
        | inr locked ↦ rw (read_file_call, locked) (λ p. cc p)
        | inl open_to ↦ elim (Bool-cases (is_too_long path_max path)) [
          | inl long ↦ rw (read_file_call, open_to, long) (λ p. cc p)
          | inr short ↦ elim (Bool-cases (sh'.error == 0)) [
            | inr failed ↦ rw (read_file_call, open_to, short, failed) (λ p. cc p)
            | inl well ↦
                let zero_error : sh'.error ≡ 0 = ground arith in
                rw (read_file_call, open_to, short, well)
                  (bind-ne-out_of_fuel (read_chunks e l fs malloc fuel sh') _
                    (read_chunks-ne-out_of_fuel malloc fuel sh' enough
                      (first_call-Moves path sh zero_error))
                    (λ exit done_so p. cc p))
          ]
        ]
      ]
