-- ===== src/Fd/Kernel.antt =====
-- Open descriptors as the system keeps them. The system is not in this repository: an interface with
-- the documented behaviour of the calls that `Detach` and `Reopen` make.
use xposed.Prelude.{◌+◌, ◌-◌, bit_and, Bytes, pos, ℕ, ◌≡◌, ◌≢◌, Option, none, some, List, [], ◌∷◌}
use xposed.Fd.Info.{Call, open_call, set_fd_call, set_fl_call, lseek_call, dup2_call, close_call}

-- An open file description: it is shared by the descriptors that `dup2` makes of each other.
pub record Description : Type 0 where
  pub path : Bytes
  pub open_flags : ℕ
  pub status_flags : ℕ
  pub position : ℕ

-- A descriptor names a description, and has flags of its own (`FD_CLOEXEC`).
pub record Descriptor : Type 0 where
  pub description : ℕ
  pub fd_flags : ℕ

-- `perform n c s` is what the call `c` leaves; `n` is the descriptor that an `open` returns. `F_SETFL` sets
-- the status flags of `settable` only (`O_APPEND`, `O_ASYNC`, `O_DIRECT`, `O_NOATIME` and
-- `O_NONBLOCK`), and `initial` are those that each new file has (`O_LARGEFILE` on some systems).
pub record Kernel : Type 1 where
  pub settable : ℕ
  pub initial : ℕ
  pub State : Type 0
  pub descriptor : State → ℕ → Option Descriptor
  pub described : State → ℕ → Description
  pub perform : ℕ → Call → State → State

-- What `F_SETFL` with these flags makes of the status flags: the others stay.
abbrev pub set_status : (settable flags status : ℕ) → ℕ
set_status settable flags status = bit_and flags settable + (status - bit_and status settable)

module _ (kernel : Kernel) where
  open kernel use {State, descriptor, described, perform}

  -- All descriptors but one stay as they are.
  abbrev pub SameBut : ℕ → State → State → Type 0
  SameBut n s s' = (m : ℕ) → m ≢ n → descriptor s' m ≡ descriptor s m

  abbrev pub SameFiles : State → State → Type 0
  SameFiles s s' = (j : ℕ) → described s' j ≡ described s j

  abbrev pub SameFilesBut : ℕ → State → State → Type 0
  SameFilesBut id s s' = (j : ℕ) → j ≢ id → described s' j ≡ described s j

  -- No descriptor names the description.
  abbrev pub IsFresh : ℕ → State → Type 0
  IsFresh id s = (m : ℕ) (d : Descriptor) → descriptor s m ≡ some d → d.description ≢ id

  -- A new file: at position 0, with the flags given to `open` and those of each new file.
  pub record Opened (n : ℕ) (path : Bytes) (flags : ℕ) (s s' : State) : Type 0 where
    pub id : ℕ
    pub fresh : IsFresh id s
    pub there : descriptor s' n ≡ some (record { description = id; fd_flags = 0 })
    pub file :
        described s' id
        ≡ record { path = path; open_flags = flags; status_flags = kernel.initial; position = 0 }
    pub same : SameBut n s s'
    pub same_files : SameFilesBut id s s'

  -- The calls where they succeed. `dup2` leaves the flags of the new descriptor cleared.
  pub record IsKernel : Type 0 where
    pub opens :
        (n : ℕ) (path : Bytes) (flags : ℕ) (s : State)
        → descriptor s n ≡ none
        → Opened n path flags s (perform n (open_call path flags) s)
    pub sets_fd :
        (k n flags : ℕ) (s : State) (d : Descriptor)
        → descriptor s n ≡ some d
        → let s' = perform k (set_fd_call n flags) s in
          (descriptor s' n ≡ some (record d { fd_flags = flags })) × SameBut n s s' × SameFiles s s'
    pub sets_fl :
        (k n flags : ℕ) (s : State) (d : Descriptor)
        → descriptor s n ≡ some d
        → let s' = perform k (set_fl_call n flags) s in
          ((m : ℕ) → descriptor s' m ≡ descriptor s m)
          × (described s' d.description ≡ record (described s d.description) {
            status_flags =
                set_status kernel.settable flags (described s d.description).status_flags;
          })
          × SameFilesBut d.description s s'
    pub seeks :
        (k n position : ℕ) (s : State) (d : Descriptor)
        → descriptor s n ≡ some d
        → let s' = perform k (lseek_call n (pos position)) s in
          ((m : ℕ) → descriptor s' m ≡ descriptor s m)
          × (described s' d.description
              ≡ record (described s d.description) { position = position })
          × SameFilesBut d.description s s'
    pub dups :
        (k old new : ℕ) (s : State) (d : Descriptor)
        → old ≢ new
        → descriptor s old ≡ some d
        → let s' = perform k (dup2_call old new) s in
          (descriptor s' new ≡ some (record d { fd_flags = 0 })) × SameBut new s s' × SameFiles s s'
    pub closes :
        (k n : ℕ) (s : State)
        → let s' = perform k (close_call n) s in
          (descriptor s' n ≡ none) × SameBut n s s' × SameFiles s s'

  -- What a process sees at a descriptor: the file, and the descriptor's flags.
  abbrev pub seen : State → Option Descriptor → Option (Description × ℕ)
  seen s none = none
  seen s (some d) = some (described s d.description, d.fd_flags)

  unfoldable pub view : State → ℕ → Option (Description × ℕ)
  view s fd = seen s (descriptor s fd)

  -- The calls of one `Detach` or `Reopen`, in their order.
  unfoldable pub perform_all : ℕ → List Call → State → State
  perform_all n [] s = s
  perform_all n (c ∷ cs) s = perform_all n cs (perform n c s)
