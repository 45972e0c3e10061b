-- ===== src/AppProcess/ArgBlock.antt =====
-- The block of the arguments, which is overwritten by the name of the process: app_main2.cpp lines
-- 134-152, xposed.cpp lines 69-73 and 424-428, app_main.cpp lines 162-165.
use xposed.Prelude.{
  ◌==◌, if◌then◌else◌, Bytes, length, take, ℕ, zero, suc, ◌+◌, ◌-◌, ◌%◌, Option, none, some, List,
  [], ◌∷◌, ◌++◌,
}
use xposed.Logcat.Daemon.{c_text}
use xposed.Run.{◌>>=◌, Run, returned, memcpy}

-- Where an argument begins, and its text.
pub record Argument : Type 0 where
  pub address : ℕ
  pub text : Bytes

abbrev pub last_of : Argument → List Argument → Argument
last_of a [] = a
last_of a (b ∷ args) = last_of b args

-- `computeArgBlockSize`, and the end of `handleOptions`, where addresses are below `modulus`. Without
-- arguments, what is read before the array is not known.
unfoldable pub compute_arg_block_size : (modulus : ℕ) (argv : List Argument) → Option ℕ
compute_arg_block_size modulus [] = none
compute_arg_block_size modulus (a ∷ args) =
    let start = a.address in
    let final = last_of a args in
    let finish = (final.address + (length final.text + 1)) % modulus in
    some ((finish + modulus - start) % modulus)

abbrev pub zeros : ℕ → Bytes
zeros zero = []
zeros (suc n) = 0 ∷ zeros n

-- `strlcpy(memory, source, size)`.
unfoldable pub strlcpy : (memory source : Bytes) (size : ℕ) → Run Bytes
strlcpy memory source size =
    if size == 0 then returned memory else memcpy 0 (take (size - 1) source ++ 0 ∷ []) memory

-- `setProcessName`, for the memory from `argBlockStart` on. The call of `set_process_name` at the end
-- is one of the system.
unfoldable pub set_process_name : (name : Bytes) (arg_block_length : ℕ) (memory : Bytes) → Run Bytes
unfolding strlcpy
set_process_name name arg_block_length memory = do
  cleared ← memcpy 0 (zeros arg_block_length) memory
  strlcpy cleared name arg_block_length

-- `setArgv0` of Android 4, for the memory from `argv0` on.
unfoldable pub set_argv0 : (memory new_argv0 : Bytes) → Run Bytes
unfolding strlcpy
set_argv0 memory new_argv0 = strlcpy memory new_argv0 (length (c_text memory))
