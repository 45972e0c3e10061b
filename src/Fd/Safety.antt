-- ===== src/Fd/Safety.antt =====
-- Which descriptors get into the table, and which are detached.
use xposed.Prelude.{
  Bytes, ℕ, bit_and, ◌≡◌, refl, inl, inr, true, false, none, some, Bool-cases, ◌-◌, sym, subst, ◌∙◌,
  Option, some-injective, Option-cases, arith, ap,
}
use xposed.Fd.Info.{
  Kind, socket, OpenFile, Config, Info, is_whitelisted, get_socket_name, socket_info, is_reopenable,
  offset_of, file_info, is_socket, create_from_fd, character_device, regular_file, other_kind,
}
use xposed.FileSystem.{done, Sys-cases}

-- What the code lets in: a socket or a file whose name is whitelisted, with what is needed to open
-- the file again in the same way.
pub data IsAllowed (c : Config) (fd : ℕ) : OpenFile → Info → Type 0 where
  named_socket :
      {o : OpenFile} {name : Bytes}
      → o.fstat ≡ done socket
      → get_socket_name c o ≡ some name
      → is_whitelisted name ≡ true
      → IsAllowed c fd o (socket_info fd)
  named_file :
      {o : OpenFile} {kind : Kind} {i : Info} {fl : ℕ}
      → o.fstat ≡ done kind
      → is_reopenable kind ≡ true
      → o.readlink ≡ done i.file_path
      → is_whitelisted i.file_path ≡ true
      → i.fd ≡ fd
      → i.is_sock ≡ false
      → o.get_fd ≡ done i.fd_flags
      → o.get_fl ≡ done fl
      → i.open_flags ≡ bit_and fl c.k_open_flags
      → i.fs_flags ≡ fl - bit_and fl c.k_open_flags
      → i.offset ≡ offset_of o.lseek
      → IsAllowed c fd o i

not-some : {A : Type 0} {a : A} {o : Option A} → o ≡ none → o ≡ some a → ⊥
not-some {A} {a} {o} e h = cc (e, h)

file_info-IsAllowed :
    (c : Config) (fd : ℕ) (o : OpenFile) (i : Info) (kind : Kind) (path : Bytes)
    → o.fstat ≡ done kind
    → is_reopenable kind ≡ true
    → o.readlink ≡ done path
    → is_whitelisted path ≡ true
    → file_info c fd path o ≡ some i
    → IsAllowed c fd o i
unfolding file_info
file_info-IsAllowed c fd o i kind path stat reopenable read white h = elim (Sys-cases o.get_fd) [
  | inr (n, failed) ↦ elim (not-some {a = i} (rw failed) h) [ ]
  | inl (flags, got) ↦ elim (Sys-cases o.get_fl) [
    | inr (n, failed) ↦ elim (not-some {a = i} (rw (got, failed)) h) [ ]
    | inl (fl, got_fl) ↦
        let made : some i
            ≡ some (record {
              fd = fd;
              file_path = path;
              open_flags = bit_and fl c.k_open_flags;
              fd_flags = flags;
              fs_flags = fl - bit_and fl c.k_open_flags;
              offset = offset_of o.lseek;
              is_sock = false;
            }) =
          sym h ∙ rw (got, got_fl) in
        subst (λ x. IsAllowed c fd o x) (sym (some-injective _ _ made))
          (named_file {kind = kind} {fl = fl} stat reopenable read white refl refl got got_fl refl
            refl refl)
  ]
]

is_socket-eq : (k : Kind) → is_socket k ≡ true → k ≡ socket
is_socket-eq socket h = refl
is_socket-eq character_device h = ground arith
is_socket-eq regular_file h = ground arith
is_socket-eq other_kind h = ground arith

-- A descriptor is remembered only if it is a named socket or a whitelisted file or character device
-- that can be opened again.
pub create_from_fd-IsAllowed :
    (c : Config) (fd : ℕ) (o : OpenFile) (i : Info)
    → create_from_fd c fd o ≡ some i
    → IsAllowed c fd o i
unfolding create_from_fd
create_from_fd-IsAllowed c fd o i h = elim (Sys-cases o.fstat) [
  | inr (n, failed) ↦ elim (not-some {a = i} (rw failed) h) [ ]
  | inl (kind, stat) ↦ elim (Bool-cases (is_socket kind)) [
    | inl sock ↦ elim (Option-cases (get_socket_name c o)) [
      | inl unnamed ↦ elim (not-some {a = i} (ground arith) h) [ ]
      | inr (name, named) ↦ elim (Bool-cases (is_whitelisted name)) [
        | inr w ↦ elim (not-some {a = i} (ground arith) h) [ ]
        | inl w ↦
            let made : some i ≡ some (socket_info fd) = ground arith in
            subst (λ x. IsAllowed c fd o x) (sym (some-injective _ _ made))
              (named_socket {name = name} (stat ∙ ap done (is_socket-eq kind sock)) named w)
      ]
    ]
    | inr file ↦ elim (Sys-cases o.readlink) [
      | inr (n, failed) ↦ elim (not-some {a = i} (ground arith) h) [ ]
      | inl (path, read) ↦ elim (Bool-cases (is_whitelisted path)) [
        | inr w ↦ elim (not-some {a = i} (ground arith) h) [ ]
        | inl w ↦ elim (Bool-cases (is_reopenable kind)) [
          | inr r ↦ elim (not-some {a = i} (ground arith) h) [ ]
          | inl r ↦
              let e : file_info c fd path o ≡ create_from_fd c fd o = ground arith in
              file_info-IsAllowed c fd o i kind path stat r read w (e ∙ h)
        ]
      ]
    ]
  ]
]
