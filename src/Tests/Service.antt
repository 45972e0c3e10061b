-- ===== src/Tests/Service.antt =====
-- The memory-based service at concrete inputs.
use xposed.Prelude.{
  ◌==◌, if◌then◌else◌, bytes_of, Bytes, length, pos, ℕ, zero, suc, ◌≡◌, refl, ap, ◌≢◌, true, false,
  Option, some, [], ◌∷◌, ◌++◌, arith, drop, length-take, ◌≤◌, subst,
}
use xposed.FileSystem.{done, fails, FileSystem, regular, Sys, Stream}
use xposed.Membased.Answers.{IsReleased}
use xposed.Membased.Overflow.{ReadsWithin, read_chunks-ne-fault, read_file_call-overflows}
use xposed.Membased.Process.{
  Process, launched, init, is_service_accessible, Life, launch, inits, accessible-mapped,
}
use xposed.Membased.ReadFile.{ReadReply, read_chunks, read_file_call}
use xposed.Membased.Server.{content_size}
use xposed.Membased.Shared.{
  access_file, read_file, state_idle, op_none, Stat, MemBasedState, Layout,
}
use xposed.Membased.WholeFile.{Holds, Allocates, read_file_call-whole}
use xposed.Platform.{linux}
use xposed.Run.{fault, returned}

pub zeros : ℕ → Bytes
zeros zero = []
zeros (suc n) = 0 ∷ zeros n

pub length-zeros : (n : ℕ) → length (zeros n) ≡ n
unfolding zeros
length-zeros zero = refl
length-zeros (suc n) = ap (λ (k : ℕ). suc k) (length-zeros n)

abbrev pub malloc : ℕ → Option Bytes
malloc n = some (zeros n)

pub malloc-Allocates : Allocates malloc
malloc-Allocates n = (zeros n, refl, length-zeros n)

abbrev pub some_stat : ℕ → Stat
some_stat size = record {
  st_size = size;
  st_mtime = 7;
  is_directory = false;
  st_uid = 1;
  st_gid = 2;
}

-- A compiler's layout in which the other members read as zeros.
abbrev pub layout : Layout
layout = record {
  as_access = λ m. record { path = []; mode = 0; result = pos 0 };
  as_stat = λ m. record { path = []; st = some_stat 0; result = pos 0 };
  as_read = λ m. record {
    path = [];
    offset = 0;
    total_size = pos 0;
    bytes_read = 0;
    eof = false;
    content = [];
  };
}

abbrev pub path : Bytes
path = bytes_of "/data/a"

abbrev pub hello : Bytes
hello = bytes_of "hello"

abbrev pub one_file : Bytes → ℕ → FileSystem
one_file contents size = record {
  access_negative = λ p n. fails 22;
  access = λ p mode. if mode == 2 then fails 13 else done tt;
  stat = λ p. if length p == 0 then fails 2 else done (some_stat size);
  fopen = λ p. done (regular contents);
}

abbrev pub zygote : Process
zygote = record (launched 5) {
  shared = true;
  zygote_pid = 5;
  can_always_access_service = true;
  mapped = true;
}

abbrev pub memory : MemBasedState
memory = record {
  state = state_idle;
  action = op_none;
  error = 0;
  member = access_file (record { path = []; mode = 0; result = pos 0 });
}

pub zygote-accessible : (is_service_accessible linux zygote).0 ≡ true
unfolding is_service_accessible launched
zygote-accessible = refl

pub hello-Holds : Holds (λ k. one_file hello 5) path hello (some_stat 5) (regular hello)
hello-Holds = record {
  stats = λ k. refl;
  opens = λ k. refl;
  size = refl;
  regular = record { seeks = λ p. refl; reads = λ p n. refl };
}

read_file_call-whole_example :
    (r : ReadReply) × (read_file_call linux layout
        (λ k. one_file hello 5)
        100
        malloc
        1
        zygote
        path
        0
        memory
      ≡ returned r)
    × (r.value ≡ some (hello ++ 0 ∷ []))
    × (r.bytes_read ≡ 5)
    × (r.process ≡ record zygote { errno = 0 })
    × IsReleased r.memory
read_file_call-whole_example =
    read_file_call-whole linux layout (λ k. one_file hello 5) 100 malloc 1 zygote path hello 0
      memory (some_stat 5) (regular hello) zygote-accessible (omega arith) hello-Holds
      malloc-Allocates (omega arith) (omega arith)

init-Life : Life linux (init true (launched 5)).1
unfolding launched
init-Life = inits true refl (launch 5)

accessible-mapped_example :
    ((is_service_accessible linux (init true (launched 5)).1).1.shared ≡ true)
    × ((is_service_accessible linux (init true (launched 5)).1).1.mapped ≡ true)
unfolding is_service_accessible init launched
accessible-mapped_example = accessible-mapped init-Life refl

read_file_call-overflows_example :
    read_file_call linux layout (λ k. one_file hello 0) 100 malloc 1 zygote path 0 memory ≡ fault
read_file_call-overflows_example =
    read_file_call-overflows linux layout (λ k. one_file hello 0) 100 malloc 1 zygote path 0 memory
      (some_stat 0) (regular hello) zygote-accessible (omega arith) refl refl refl malloc-Allocates
      (omega arith) (omega arith)

-- The bound, for the stream that `fopen` gave.
OpensWithin : Sys Stream → Type 0
OpensWithin (done f) = (p : ℕ) → length (f.read p content_size).bytes ≤ content_size
OpensWithin (fails n) = Unit

hello-ReadsWithin : ReadsWithin (λ k. one_file hello 5)
unfolding OpensWithin
hello-ReadsWithin k p f opened =
    subst OpensWithin opened (λ p. omega (arith, length-take {0} content_size (drop p hello)))

read_chunks-ne-fault_example :
    read_chunks linux layout
      (λ k. one_file hello 5)
      malloc
      3
      (record memory {
        member = read_file (record {
          path = path;
          offset = 0;
          total_size = pos 4;
          bytes_read = 5;
          eof = false;
          content = hello;
        });
      })
    ≢ fault
read_chunks-ne-fault_example =
    read_chunks-ne-fault linux layout (λ k. one_file hello 5) hello-ReadsWithin malloc 3 4 _
      malloc-Allocates refl (omega arith) (omega arith) (omega arith)
