-- ===== src/Binder/Range.antt =====
-- Which part of a file `readFile` returns.
use xposed.Prelude.{
  ltb-of_lt, ◌==◌, if◌then◌else◌, Bytes, length, take, drop, pos, ℕ, suc, ◌+◌, ◌-◌, ◌≤◌, ◌≡◌,
  Option, some, [], ◌∷◌, ◌++◌, length-take, length-drop, take-append-drop, subst, append-nil, arith,
  ltb, ◌+ℤ◌, none, ℤ, pos_part, ◌∙◌, Bool-cases, ◌<◌, inl, inr, minus_one, signed32, eqb_ℤ, true,
  false, ◌&&◌,
}
use xposed.Binder.Defs.{
  read_file, Out, terminate, read_stream, open_and_read, allocate_and_read, to_size_t, Status,
  check_length, uid_system, check_offset, check_file,
}
use xposed.FileSystem.{done, Stream, FileSystem, IsRegular}
use xposed.Membased.Shared.{Stat}
use xposed.Platform.{Errnos}
use xposed.Run.{returned, memcpy, memcpy-append, Run, int_limit}

terminate-take :
    (n : ℕ) (block : Bytes)
    → length block ≡ suc n
    → terminate (pos n) block ≡ returned (take n block ++ (0 ∷ []))
terminate-take n block h =
    let la : length (take n block) ≡ n = omega (arith, length-take {0} n block) in
    let lt : length (drop n block) ≡ 1 = omega (arith, length-drop {0} n block) in
    let whole : take n block ++ (drop n block ++ []) ≡ block =
      rw (append-nil (drop n block), take-append-drop) in
    subst (λ m. memcpy m (0 ∷ []) block ≡ returned (take n block ++ (0 ∷ []))) la
      (subst (λ b. memcpy (length (take n block)) (0 ∷ []) b ≡ returned (take n block ++ (0 ∷ [])))
        whole (memcpy-append (take n block) (0 ∷ []) (drop n block) [] lt))

memcpy-take :
    (n : ℕ) (bytes block : Bytes)
    → length block ≡ suc n
    → length bytes ≡ n
    → memcpy 0 bytes (take n block ++ (0 ∷ [])) ≡ returned (bytes ++ (0 ∷ []))
memcpy-take n bytes block h k =
    let la : length (take n block) ≡ length bytes = omega (arith, length-take {0} n block) in
    memcpy-append [] bytes (take n block) (0 ∷ []) la

-- Memory can be had.
abbrev pub IsAllocating : (ℕ → Option Bytes) → Type 0
IsAllocating malloc = (n : ℕ) → (block : Bytes) × (malloc n ≡ some block) × (length block ≡ n)

-- The number of bytes asked for: all that follow the offset for a count of 0.
unfoldable pub wanted : (offset count size : ℕ) → ℕ
wanted offset count size = if count == 0 then size - offset else count

module _ (e : Errnos) (word : ℕ) (malloc : ℕ → Option Bytes) (fs : FileSystem)
    (allocating : IsAllocating malloc) (filename contents : Bytes) (f : Stream)
    (opened : fs.fopen filename ≡ done f) (is_regular : IsRegular f contents) where
  allocate_and_read-open :
      (offset : ℕ) (count : ℤ) (o : Out) (block b : Bytes)
      → pos_part count + 1 < int_limit
      → malloc (to_size_t word (count +ℤ pos 1)) ≡ some block
      → terminate count block ≡ returned b
      → allocate_and_read e word malloc fs filename offset count o
        ≡ open_and_read e word malloc fs filename offset (pos_part count) b o
  unfolding allocate_and_read
  allocate_and_read-open offset count o block b small got h =
      rw (allocate_and_read, ltb-of_lt (pos_part count + 1) int_limit small, got, h)

  open_and_read-take :
      (offset n : ℕ) (b : Bytes) (o : Out)
      → open_and_read e word malloc fs filename offset n b o
        ≡ read_stream e word malloc fs f offset n b o
  unfolding open_and_read
  open_and_read-take offset n b o =
      let sought : (if ltb 0 offset then f.seek offset else none) ≡ none =
        ground (arith, is_regular.seeks offset) in
      ground arith

  allocate_and_read-take :
      (offset n : ℕ) (o : Out)
      → offset + n ≤ length contents
      → n + 1 < int_limit
      → allocate_and_read e word malloc fs filename offset (pos n) o
        ≡ returned (record {
          code = 0;
          out = record o {
            buffer = some (take n (drop offset contents) ++ (0 ∷ []));
            bytes_read = pos n;
          };
        })
  unfolding read_stream ◌+ℤ◌
  allocate_and_read-take offset n o fits small =
      let (block, got, len') = allocating (n + 1) in
      let len : length block ≡ suc n = omega arith in
      let bytes = take n (drop offset contents) in
      let lb : length bytes ≡ n =
        omega (arith, length-take {0} n (drop offset contents), length-drop {0} offset contents) in
      let size : to_size_t word (pos n +ℤ pos 1) ≡ n + 1 = ground arith in
      allocate_and_read-open offset (pos n) o block (take n block ++ (0 ∷ [])) small (rw size got)
        (terminate-take n block len)
      ∙ open_and_read-take offset n _ o
      ∙ rw (is_regular.reads offset n, memcpy-take n bytes block len lb, lb)

  taken : ℕ → ℕ → Out → Run Status
  taken offset n o = returned (record {
    code = 0;
    out = record o {
      buffer = some (take n (drop offset contents) ++ (0 ∷ []));
      bytes_read = pos n;
    };
  })

  check_length-take :
      (offset count : ℕ) (o : Out)
      → offset < length contents
      → offset + count ≤ length contents
      → length contents + 1 < int_limit
      → check_length e word malloc fs filename offset (pos count) (length contents) o
        ≡ taken offset (wanted offset count (length contents)) o
  unfolding check_length wanted taken
  check_length-take offset count o inside fits small =
      let nonempty : (length contents == 0) ≡ false = ground arith in
      elim (Bool-cases (count == 0)) [
        | inl h ↦
            let size : signed32 (length contents - offset) ≡ pos (length contents - offset) =
              ground arith in
            let none_asked : ltb 0 count ≡ false = ground arith in
            rw (h, none_asked, nonempty, size)
              (allocate_and_read-take offset (length contents - offset) o (omega arith)
                (omega arith))
        | inr h ↦
            let asked : ltb 0 count ≡ true = ground arith in
            let is_int : ltb (offset + count) int_limit ≡ true = ground arith in
            let within : ltb (length contents) (offset + count) ≡ false = ground arith in
            rw (h, asked, is_int, within, nonempty)
              (allocate_and_read-take offset count o fits (omega arith))
      ]

  -- The system server gets exactly the bytes from the offset on, as many as it asks for (all for a
  -- count of 0), with a terminating 0, and the file's size and time; for a regular file that is
  -- not the one that it knows already, an offset within it and a range that ends within it. Memory
  -- can be had, the file's length with the terminator is an `int`, and `filename` is what the
  -- method's pointer points to.
  pub read_file-take :
      (offset count : ℕ) (o : Out) (st : Stat)
      → fs.stat filename ≡ done st
      → st.is_directory ≡ false
      → st.st_size ≡ length contents
      → (eqb_ℤ o.size (pos st.st_size) && eqb_ℤ o.mtime (signed32 st.st_mtime)) ≡ false
      → offset < length contents
      → offset + count ≤ length contents
      → length contents + 1 < int_limit
      → read_file e word malloc fs uid_system filename (pos offset) (pos count) o
        ≡ returned (record {
          code = 0;
          out = record {
            size = pos (length contents);
            mtime = pos st.st_mtime;
            buffer =
                some
                  (take (wanted offset count (length contents)) (drop offset contents) ++ (0 ∷ []));
            bytes_read = pos (wanted offset count (length contents));
            errormsg = o.errormsg;
          };
        })
  unfolding read_file check_file check_offset taken
  read_file-take offset count o st found plain size new inside fits small =
      let o' = record o {
        size = pos st.st_size;
        mtime = pos st.st_mtime;
        buffer = none;
        bytes_read = minus_one;
      } in
      let checked : check_file e word malloc fs filename (pos offset) (pos count)
            (record o { buffer = none; bytes_read = minus_one })
          ≡ check_length e word malloc fs filename offset (pos count) st.st_size o' =
        ground arith in
      checked
      ∙ rw size (
          check_length-take offset count (record o' { size = pos (length contents) }) inside fits
            small)
