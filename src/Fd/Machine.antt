-- ===== src/Fd/Machine.antt =====
-- A system that behaves as Fd.Kernel asks.
use xposed.Prelude.{
  ◌+◌, ◌==◌, if◌then◌else◌, Bool-cases, ℕ, ◌<◌, ◌≡◌, subst, ◌≢◌, inl, inr, true, Option, none, some,
  some-injective, arith, Bytes, pos_part, suc, refl, ap, ◌∙◌,
}
use xposed.Fd.Info.{Call, open_call, set_fd_call, set_fl_call, lseek_call, dup2_call, close_call}
use xposed.Fd.Kernel.{set_status, Description, Descriptor, Kernel, IsKernel}

-- The descriptors, the descriptions, and a number from which on descriptions are unused.
pub record Descriptors : Type 0 where
  pub fds : ℕ → Option Descriptor
  pub files : ℕ → Description
  pub next : ℕ
  pub below : (m : ℕ) (d : Descriptor) → fds m ≡ some d → d.description < next

-- The flags `O_APPEND`, `O_NONBLOCK`, `O_ASYNC`, `O_DIRECT` and `O_NOATIME` of Linux on ARM, and
-- `O_LARGEFILE`, which a process of 64 bits gives to each file.
abbrev pub linux_settable : ℕ
linux_settable = 1024 + 2048 + 8192 + 65_536 + 262_144

abbrev pub linux_initial : ℕ
linux_initial = 131_072

-- A function that differs at one place.
abbrev pub set_at {ℓ} : {A : Type ℓ} → (ℕ → A) → ℕ → A → ℕ → A
set_at f n x m = if m == n then x else f m

set_at-same : {A : Type 0} (f : ℕ → A) (n : ℕ) (x : A) → set_at f n x n ≡ x
set_at-same f n x = let e : (n == n) ≡ true = ground arith in rw e

set_at-other : {A : Type 0} (f : ℕ → A) (n : ℕ) (x : A) (m : ℕ) → m ≢ n → set_at f n x m ≡ f m
set_at-other f n x m other = elim (Bool-cases (m == n)) [
  | inr apart ↦ rw apart
  | inl same ↦ let e : m ≡ n = ground arith in absurd (other e)
]

set_at-below :
    (f : ℕ → Option Descriptor) (n b : ℕ) (x : Option Descriptor)
    → ((d : Descriptor) → x ≡ some d → d.description < b)
    → ((m : ℕ) (d : Descriptor) → f m ≡ some d → d.description < b)
    → (m : ℕ) (d : Descriptor) → set_at f n x m ≡ some d
    → d.description < b
set_at-below f n b x new old m d h = elim (Bool-cases (m == n)) [
  | inl same ↦ new d (rw same at h)
  | inr other ↦ old m d (rw other at h)
]

some-below :
    (b : ℕ) (x : Descriptor)
    → x.description < b
    → (d : Descriptor) → some x ≡ some d
    → d.description < b
some-below b x small d h =
    subst (λ (y : Descriptor). y.description < b) (some-injective _ _ h) small

none-below : (b : ℕ) (d : Descriptor) → none ≡ some d → d.description < b
none-below b d h = absurd (cc h)

-- A descriptor takes the description of `x`, and these flags.
moved :
    (s : Descriptors) (n flags : ℕ) (x : Option Descriptor)
    → ((d : Descriptor) → x ≡ some d → d.description < s.next)
    → Descriptors
moved s n flags none h = s
moved s n flags (some d) h = record s {
  fds = set_at s.fds n (some (record d { fd_flags = flags }));
  below =
      set_at-below s.fds n s.next (some (record d { fd_flags = flags }))
        (some-below s.next (record d { fd_flags = flags }) (h d refl)) s.below;
}

-- The description of `x` changes.
changed : Descriptors → (Description → Description) → Option Descriptor → Descriptors
changed s f none = s
changed s f (some d) = record s { files = set_at s.files d.description (f (s.files d.description)) }

closed : Descriptors → ℕ → Descriptors
closed s n = record s {
  fds = set_at s.fds n none;
  below = set_at-below s.fds n s.next none (none-below s.next) s.below;
}

below-suc :
    (f : ℕ → Option Descriptor) (b : ℕ)
    → ((m : ℕ) (d : Descriptor) → f m ≡ some d → d.description < b)
    → (m : ℕ) (d : Descriptor) → f m ≡ some d
    → d.description < suc b
below-suc f b old m d h = omega (arith, old m d h)

opened : Descriptors → ℕ → Bytes → ℕ → Descriptors
opened s n path flags =
    let d : Descriptor = record { description = s.next; fd_flags = 0 } in
    record {
      fds = set_at s.fds n (some d);
      files =
          set_at s.files s.next (record {
            path = path;
            open_flags = flags;
            status_flags = linux_initial;
            position = 0;
          });
      next = suc s.next;
      below =
          set_at-below s.fds n (suc s.next) (some d) (some-below (suc s.next) d (omega arith))
            (below-suc s.fds s.next s.below);
    }

abbrev pub with_status : ℕ → Description → Description
with_status flags f = record f { status_flags = set_status linux_settable flags f.status_flags }

abbrev pub at_position : ℕ → Description → Description
at_position position f = record f { position = position }

perform_call : ℕ → Call → Descriptors → Descriptors
perform_call n (open_call path flags) s = opened s n path flags
perform_call n (set_fd_call fd flags) s = moved s fd flags (s.fds fd) (s.below fd)
perform_call n (set_fl_call fd flags) s = changed s (with_status flags) (s.fds fd)
perform_call n (lseek_call fd position) s = changed s (at_position (pos_part position)) (s.fds fd)
perform_call n (dup2_call old new) s = moved s new 0 (s.fds old) (s.below old)
perform_call n (close_call fd) s = closed s fd

unfoldable pub machine : Kernel
unfolding perform_call opened closed moved changed set_at-below some-below below-suc none-below
machine = record {
  settable = linux_settable;
  initial = linux_initial;
  State = Descriptors;
  descriptor = λ s. s.fds;
  described = λ s. s.files;
  perform = perform_call;
}

moved_lem :
    (s : Descriptors) (n flags : ℕ) (x : Option Descriptor)
    (h : (d : Descriptor) → x ≡ some d → d.description < s.next) (d : Descriptor)
    → x ≡ some d
    → ((moved s n flags x h).fds n ≡ some (record d { fd_flags = flags }))
      × ((m : ℕ) → m ≢ n → (moved s n flags x h).fds m ≡ s.fds m)
      × ((j : ℕ) → (moved s n flags x h).files j ≡ s.files j)
unfolding moved
moved_lem s n flags none h d e = absurd (cc e)
moved_lem s n flags (some c) h d e = (
  set_at-same s.fds n _
      ∙ ap (λ (a : Descriptor). some (record a { fd_flags = flags })) (some-injective _ _ e),
  λ m other. set_at-other s.fds n _ m other,
  λ j. refl,
)

changed_lem :
    (s : Descriptors) (f : Description → Description) (x : Option Descriptor) (d : Descriptor)
    → x ≡ some d
    → ((m : ℕ) → (changed s f x).fds m ≡ s.fds m)
      × ((changed s f x).files d.description ≡ f (s.files d.description))
      × ((j : ℕ) → j ≢ d.description → (changed s f x).files j ≡ s.files j)
unfolding changed
changed_lem s f none d e = absurd (cc e)
changed_lem s f (some c) d e =
    subst
      (λ (a : Descriptor).
        ((m : ℕ) → (changed s f (some c)).fds m ≡ s.fds m)
        × ((changed s f (some c)).files a.description ≡ f (s.files a.description))
        × ((j : ℕ) → j ≢ a.description → (changed s f (some c)).files j ≡ s.files j))
      (some-injective _ _ e)
      (
        λ m. refl,
        set_at-same s.files c.description _,
        λ j other. set_at-other s.files c.description _ j other,
      )

lt-ne : (a b : ℕ) → a < b → a ≢ b
lt-ne a b h = λ e. omega arith

pub machine-IsKernel : IsKernel machine
unfolding machine perform_call opened closed
machine-IsKernel = record {
  opens = λ n path flags s free. record {
    id = s.next;
    fresh = λ m d there. lt-ne d.description s.next (s.below m d there);
    there = set_at-same s.fds n _;
    file = set_at-same s.files s.next _;
    same = λ m other. set_at-other s.fds n _ m other;
    same_files = λ j other. set_at-other s.files s.next _ j other;
  };
  sets_fd = λ k n flags s d there. moved_lem s n flags (s.fds n) (s.below n) d there;
  sets_fl = λ k n flags s d there. changed_lem s (with_status flags) (s.fds n) d there;
  seeks = λ k n position s d there. changed_lem s (at_position position) (s.fds n) d there;
  dups = λ k old new s d apart there. moved_lem s new 0 (s.fds old) (s.below old) d there;
  closes = λ k n s. (set_at-same s.fds n _, λ m other. set_at-other s.fds n _ m other, λ j. refl);
}
