-- ===== src/AppProcess/Named.antt =====
-- What naming a process does to its memory.
use native.Mathlib.Nat.{mod-eq_of_lt, add-mod_right}
use xposed.Prelude.{
  Bytes, length, take, length-append, ℕ, zero, suc, ◌+◌, ◌-◌, ◌<◌, ◌≡◌, refl, sym, some, List, [],
  ◌∷◌, ◌++◌, arith, length-take, ◌%◌, ◌≤◌, ap, ◌∙◌, append_assoc, ◌==◌, subst, false, drop,
  length-drop, take-append-drop,
}
use xposed.AppProcess.ArgBlock.{
  Argument, last_of, compute_arg_block_size, zeros, strlcpy, set_process_name, set_argv0,
}
use xposed.Logcat.Daemon.{c_text}
use xposed.Run.{returned, memcpy, memcpy-append}

-- The bytes of the arguments, each with its end.
unfoldable pub block_of : List Argument → Bytes
block_of [] = []
block_of (a ∷ args) = a.text ++ (0 ∷ block_of args)

-- Each argument begins where the one before ends.
unfoldable pub IsContiguous : ℕ → List Argument → Type 0
IsContiguous at [] = Unit
IsContiguous at (a ∷ args) = (a.address ≡ at) × IsContiguous (at + (length a.text + 1)) args

unfoldable pub HasNoEnd : Bytes → Type 0
HasNoEnd [] = Unit
HasNoEnd (x ∷ s) = (0 < x) × HasNoEnd s

last_of-finish :
    (at : ℕ) (a : Argument) (args : List Argument)
    → IsContiguous at (a ∷ args)
    → (last_of a args).address + (length (last_of a args).text + 1)
      ≡ at + length (block_of (a ∷ args))
unfolding IsContiguous block_of
last_of-finish at a [] h = omega (arith, length-append {0} a.text (0 ∷ []), h.0)
last_of-finish at a (b ∷ args) h = omega (
  arith,
  last_of-finish (at + (length a.text + 1)) b args h.1,
  length-append {0} a.text (0 ∷ block_of (b ∷ args)),
)

size_between :
    (finish start at len modulus : ℕ)
    → finish ≡ at + len
    → start ≡ at
    → at + len < modulus
    → (finish % modulus + modulus - start) % modulus ≡ len
size_between finish start at len modulus e s h =
    let here : finish % modulus ≡ finish = mod-eq_of_lt (omega arith) in
    let back : finish % modulus + modulus - start ≡ len + modulus = omega arith in
    rw back (add-mod_right len modulus ∙ mod-eq_of_lt (omega arith))

compute_arg_block_size-length :
    (modulus at : ℕ) (a : Argument) (args : List Argument)
    → IsContiguous at (a ∷ args)
    → at + length (block_of (a ∷ args)) < modulus
    → compute_arg_block_size modulus (a ∷ args) ≡ some (length (block_of (a ∷ args)))
unfolding compute_arg_block_size IsContiguous
compute_arg_block_size-length modulus at a args h fits =
    ap (λ (n : ℕ). some n)
      (size_between _ a.address at (length (block_of (a ∷ args))) modulus
        (last_of-finish at a args h) h.0 fits)

zeros-add : (m n : ℕ) → zeros (m + n) ≡ zeros m ++ zeros n
zeros-add zero n = let e : 0 + n ≡ n = omega arith in rw e
zeros-add (suc m) n = let e : suc m + n ≡ suc (m + n) = omega arith in rw (e, zeros-add m n)

length-zeros : (n : ℕ) → length (zeros n) ≡ n
length-zeros zero = refl
length-zeros (suc n) = omega (arith, length-zeros n)

c_text-ended : (k rest : Bytes) → HasNoEnd k → c_text (k ++ (0 ∷ rest)) ≡ k
unfolding c_text HasNoEnd
c_text-ended [] rest h = refl
c_text-ended (x ∷ k) rest h = ground (arith, c_text-ended k rest h.1)

take-HasNoEnd : (n : ℕ) (s : Bytes) → HasNoEnd s → HasNoEnd (take n s)
unfolding HasNoEnd
take-HasNoEnd zero s h = tt
take-HasNoEnd (suc n) [] h = tt
take-HasNoEnd (suc n) (x ∷ s) h = (h.0, take-HasNoEnd n s h.1)

positive_size :
    (a : Argument) (args : List Argument)
    → length (block_of (a ∷ args)) ≡ suc (length (block_of (a ∷ args)) - 1)
unfolding block_of
positive_size a args = omega (arith, length-append {0} a.text (0 ∷ block_of args))

clear :
    (block rest : Bytes)
    → memcpy 0 (zeros (length block)) (block ++ rest) ≡ returned (zeros (length block) ++ rest)
clear block rest =
    memcpy-append [] (zeros (length block)) block rest (sym (length-zeros (length block)))

strlcpy-memcpy :
    (memory source : Bytes) (n : ℕ)
    → strlcpy memory source (suc n) ≡ memcpy 0 (take n source ++ 0 ∷ []) memory
unfolding strlcpy
strlcpy-memcpy memory source n =
    let e : suc n - 1 ≡ n = omega arith in
    let z : (suc n == 0) ≡ false = ground arith in
    rw z (ap (λ (m : ℕ). memcpy 0 (take m source ++ 0 ∷ []) memory) e)

put_name :
    (name rest : Bytes) (n : ℕ)
    → strlcpy (zeros (suc n) ++ rest) name (suc n)
      ≡ returned ((take n name ++ (0 ∷ zeros (n - length (take n name)))) ++ rest)
put_name name rest n =
    let k = take n name in
    let left = zeros (n - length k) in
    let short : length k ≤ n = omega (arith, length-take {0} n name) in
    let whole : suc n ≡ length k + 1 + (n - length k) = omega arith in
    let parts : zeros (suc n) ≡ zeros (length k + 1) ++ left =
      ap zeros whole ∙ zeros-add (length k + 1) (n - length k) in
    let same : length (zeros (length k + 1)) ≡ length (k ++ 0 ∷ []) =
      omega (arith, length-zeros (length k + 1), length-append {0} k (0 ∷ [])) in
    let joined : (k ++ 0 ∷ []) ++ (left ++ rest) ≡ (k ++ (0 ∷ left)) ++ rest = simp append_assoc in
    ap (λ (m : Bytes). strlcpy m name (suc n))
      (ap (λ (m : Bytes). m ++ rest) parts ∙ append_assoc (zeros (length k + 1)) left rest)
    ∙ strlcpy-memcpy _ name n
    ∙ memcpy-append [] (k ++ 0 ∷ []) (zeros (length k + 1)) (left ++ rest) same
    ∙ ap (λ (m : Bytes). returned m) joined

-- What the block holds at the end.
abbrev pub named : (name : Bytes) (n : ℕ) → Bytes
named name n = take n name ++ (0 ∷ zeros (n - length (take n name)))

-- The arguments stand one behind the other in memory and end before the last address: the size of
-- their block is computed without overflow; naming the process is no fault, whatever the length
-- of the name; the block then reads as the name, cut off so that its end fits, with zeros behind
-- it; and what follows the arguments, such as the environment, stays what it was.
pub set_process_name-fits :
    (modulus at : ℕ) (a : Argument) (args : List Argument) (name environment : Bytes)
    → IsContiguous at (a ∷ args)
    → at + length (block_of (a ∷ args)) < modulus
    → HasNoEnd name
    → let block = block_of (a ∷ args) in
      let size = length block in
      (compute_arg_block_size modulus (a ∷ args) ≡ some size)
      × (set_process_name name size (block ++ environment)
          ≡ returned (named name (size - 1) ++ environment))
      × (length (named name (size - 1)) ≡ size)
      × (c_text (named name (size - 1) ++ environment) ≡ take (size - 1) name)
unfolding set_process_name
set_process_name-fits modulus at a args name environment h fits no_end =
    let block = block_of (a ∷ args) in
    let n = length block - 1 in
    let k = take n name in
    let more : length block ≡ suc n = positive_size a args in
    let short : length k ≤ n = omega (arith, length-take {0} n name) in
    (
      compute_arg_block_size-length modulus at a args h fits,
      rw (clear block environment) (
          subst
            (λ (m : ℕ).
              strlcpy (zeros m ++ environment) name m ≡ returned (named name n ++ environment))
            (sym more) (put_name name environment n)),
      omega (arith, length-append {0} k (0 ∷ zeros (n - length k)), length-zeros (n - length k)),
      ap c_text (append_assoc k (0 ∷ zeros (n - length k)) environment)
          ∙ c_text-ended k (zeros (n - length k) ++ environment) (take-HasNoEnd n name no_end),
    )

-- Android 4 leaves the last place of the old name unused: the new one is cut to one character less.
set_argv0-short :
    (t rest name : Bytes) (n : ℕ)
    → HasNoEnd t
    → HasNoEnd name
    → length t ≡ suc n
    → (m : Bytes) × (set_argv0 (t ++ (0 ∷ rest)) name ≡ returned m)
      × (c_text m ≡ take n name)
      × (length m ≡ length (t ++ (0 ∷ rest)))
unfolding set_argv0
set_argv0-short t rest name n clean no_end size =
    let memory = t ++ (0 ∷ rest) in
    let s = take n name ++ 0 ∷ [] in
    let old = take (length s) memory in
    let room : length s ≤ length memory = omega (
      arith,
      length-append {0} (take n name) (0 ∷ []),
      length-take {0} n name,
      size,
      length-append {0} t (0 ∷ rest),
    ) in
    let same : length old ≡ length s = omega (arith, length-take {0} (length s) memory, room) in
    let behind = drop (length s) memory in
    let read : length (c_text memory) ≡ suc n = ap length (c_text-ended t rest clean) ∙ size in
    (
      s ++ behind,
      ap (strlcpy memory name) read
          ∙ strlcpy-memcpy memory name n
          ∙ ap (memcpy 0 s) (sym (take-append-drop (length s) memory))
          ∙ memcpy-append [] s old behind same,
      ap c_text (append_assoc (take n name) (0 ∷ []) behind)
          ∙ c_text-ended (take n name) behind (take-HasNoEnd n name no_end),
      omega (arith, length-append {0} s behind, length-drop {0} (length s) memory, room),
    )
