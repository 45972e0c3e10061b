-- ===== src/Tests/Library.antt =====
-- The client's `readFile`, and Java's, at concrete inputs.
use xposed.Prelude.{
  ltb-of_lt, length, drop, length-drop, ℕ, ◌<◌, ◌≡◌, ap, subst, ◌≢◌, ◌⊎◌, inl, true, arith,
}
use xposed.FileSystem.{Sys, done, fails, Stream, FileSystem, regular}
use xposed.Membased.ReadFile.{read_file_call}
use xposed.Membased.Server.{content_size}
use xposed.Membased.Terminates.{Advances, read_file_call-ne-out_of_fuel}
use xposed.Platform.{linux}
use xposed.Run.{int_limit, out_of_fuel}
use xposed.Tests.Service.{malloc, some_stat, path, hello, memory, layout, zygote}

-- Every path has the same file.
abbrev one_for_all : ℕ → FileSystem
one_for_all k = record {
  access_negative = λ p n. fails 22;
  access = λ p mode. done tt;
  stat = λ p. done (some_stat 5);
  fopen = λ p. done (regular hello);
}

opened-regular :
    (f : Stream) → ◌≡◌ {A = Sys Stream} (done (regular hello)) (done f) → regular hello ≡ f
opened-regular f h = ap stream h
  where
    stream : Sys Stream → Stream
    stream (done g) = g
    stream (fails n) = f

hello-ends : (p : ℕ) → ((regular hello).read p content_size).feof ≡ true
hello-ends p =
    ltb-of_lt (length (drop p hello)) content_size (omega (arith, length-drop {0} p hello))

one_for_all-Advances : Advances one_for_all
one_for_all-Advances = record {
  stat_fails = λ k p n h. absurd (cc h);
  fopen_fails = λ k p n h. absurd (cc h);
  reads = λ k p f h at.
      subst
        (λ (g : Stream).
          ((g.read at content_size).feof ≡ true)
          ⊎ (0 < (g.read at content_size).ferror)
          ⊎ (0 < length (g.read at content_size).bytes))
        (opened-regular f h) (inl (hello-ends at));
}

read_file_call-ne-out_of_fuel_example :
    read_file_call linux layout one_for_all 100 malloc int_limit zygote path 0 memory ≢ out_of_fuel
read_file_call-ne-out_of_fuel_example =
    read_file_call-ne-out_of_fuel linux layout one_for_all one_for_all-Advances 100 malloc int_limit
      zygote path 0 memory (omega arith)
