-- ===== src/Fd/Info.antt =====
-- fd_utils-inl.h, lines 38-331: what the zygote remembers of an open file, and how it is reopened.
-- The system calls are not in this repository; what they answer for a descriptor is a parameter.
use xposed.Prelude.{
  leb, ◌==◌, if◌then◌else◌, bytes_of, starts_with, Bytes, length, get_or, take, any, ℤ, pos,
  minus_one, eqb_ℤ, ℕ, ◌-◌, bit_and, Bool, true, false, not, ◌&&◌, Option, none, some, List, [],
  ◌∷◌,
}
use xposed.FileSystem.{Sys, done, fails}

abbrev pub k_path_prefix_whitelist : List Bytes
k_path_prefix_whitelist =
    bytes_of "/data/app/"
    ∷ bytes_of "/data/app-private/"
    ∷ bytes_of "/system/app/"
    ∷ bytes_of "/system/priv-app/"
    ∷ bytes_of "/vendor/app/"
    ∷ bytes_of "/vendor/priv-app/"
    ∷ []

-- The kinds of `st_mode` that the code tells apart.
pub data Kind : Type 0 where
  socket : Kind
  character_device : Kind
  regular_file : Kind
  other_kind : Kind

-- What `getsockname` writes: the family and the first `addr_len` bytes' part in `sun_path`.
pub record SocketAddress : Type 0 where
  pub sa_family : ℕ
  pub sun_path : Bytes

-- What the system calls of `createFromFd` answer for one descriptor. `lseek` is the offset, or a
-- failure.
pub record OpenFile : Type 0 where
  pub fstat : Sys Kind
  pub getsockname : Sys SocketAddress
  pub readlink : Sys Bytes
  pub get_fd : Sys ℕ
  pub get_fl : Sys ℕ
  pub lseek : Sys ℕ

-- Constants of the system's headers, and the version that is built.
pub record Config : Type 0 where
  pub af_netlink : ℕ
  pub af_unix : ℕ
  pub k_open_flags : ℕ
  pub platform_sdk_version : ℕ

-- `FileDescriptorInfo`. An offset of -1 belongs to a file that has none.
pub record Info : Type 0 where
  pub fd : ℕ
  pub file_path : Bytes
  pub open_flags : ℕ
  pub fd_flags : ℕ
  pub fs_flags : ℕ
  pub offset : ℤ
  pub is_sock : Bool

unfoldable pub is_whitelisted : Bytes → Bool
is_whitelisted path = any (λ prefix. starts_with prefix path) k_path_prefix_whitelist

-- `sun_path` without the byte 0 at its end.
unfoldable pub without_terminator : Bytes → Bytes
without_terminator path =
    if get_or path (length path - 1) 0 == 0 then take (length path - 1) path else path

unfoldable pub get_socket_name : Config → OpenFile → Option Bytes
get_socket_name c o = elim o.getsockname [
  | fails n ↦ none
  | done addr ↦
      if leb c.platform_sdk_version 23 && (addr.sa_family == c.af_netlink)
      then some (bytes_of "@netlink@")
      else if not (addr.sa_family == c.af_unix)
      then none
      else if length addr.sun_path == 0
      then none
      else if get_or addr.sun_path 0 0 == 0
      then none
      else some (without_terminator addr.sun_path)
]

-- The constructor for a socket.
abbrev pub socket_info : ℕ → Info
socket_info fd = record {
  fd = fd;
  file_path = [];
  open_flags = 0;
  fd_flags = 0;
  fs_flags = 0;
  offset = pos 0;
  is_sock = true;
}

abbrev pub is_reopenable : Kind → Bool
is_reopenable socket = false
is_reopenable character_device = true
is_reopenable regular_file = true
is_reopenable other_kind = false

abbrev pub is_socket : Kind → Bool
is_socket socket = true
is_socket character_device = false
is_socket regular_file = false
is_socket other_kind = false

-- The offset that `lseek64` returns.
abbrev pub offset_of : Sys ℕ → ℤ
offset_of (done n) = pos n
offset_of (fails n) = minus_one

-- Lines 104-139: the flags that `open` takes, and the others.
unfoldable pub file_info : Config → ℕ → Bytes → OpenFile → Option Info
file_info c fd path o = elim o.get_fd [
  | fails n ↦ none
  | done fd_flags ↦ elim o.get_fl [
    | fails n ↦ none
    | done fl ↦ some (record {
      fd = fd;
      file_path = path;
      open_flags = bit_and fl c.k_open_flags;
      fd_flags = fd_flags;
      fs_flags = fl - bit_and fl c.k_open_flags;
      offset = offset_of o.lseek;
      is_sock = false;
    })
  ]
]

unfoldable pub create_from_fd : Config → ℕ → OpenFile → Option Info
create_from_fd c fd o = elim o.fstat [
  | fails n ↦ none
  | done kind ↦
      if is_socket kind
      then elim (get_socket_name c o) [
        | none ↦ none
        | some name ↦ if is_whitelisted name then some (socket_info fd) else none
      ]
      else elim o.readlink [
        | fails n ↦ none
        | done path ↦
            if not (is_whitelisted path)
            then none
            else if is_reopenable kind
            then file_info c fd path o
            else none
      ]
]

-- The calls that change descriptors, in the order in which they are made.
pub data Call : Type 0 where
  open_call : Bytes → ℕ → Call
  set_fd_call : ℕ → ℕ → Call
  set_fl_call : ℕ → ℕ → Call
  lseek_call : ℕ → ℤ → Call
  dup2_call : ℕ → ℕ → Call
  close_call : ℕ → Call

-- What the calls answer: the new descriptor of `open`, and whether the others succeed.
pub record Outcomes : Type 0 where
  pub open_file : Option ℕ
  pub set_fd : Bool
  pub set_fl : Bool
  pub seek : Bool
  pub dup2 : Bool
  pub close : Bool

-- `Detach`, with the flags `O_RDWR`.
unfoldable pub detach : (o_rdwr : ℕ) → Outcomes → Info → Bool × List Call
detach o_rdwr k i =
    let opening = open_call (bytes_of "/dev/null") o_rdwr in
    elim k.open_file [
      | none ↦ (false, opening ∷ [])
      | some dev_null_fd ↦
          if not k.dup2
          then (false, opening ∷ dup2_call dev_null_fd i.fd ∷ [])
          else (k.close, opening ∷ dup2_call dev_null_fd i.fd ∷ close_call dev_null_fd ∷ [])
    ]

-- Lines 177-203, for the descriptor that `open` returned.
unfoldable pub restore : Outcomes → Info → ℕ → Bool × List Call
restore k i new_fd =
    let dup : Bool × List Call = (k.dup2, dup2_call new_fd i.fd ∷ close_call new_fd ∷ []) in
    let seek : Bool × List Call =
      if eqb_ℤ i.offset minus_one
      then dup
      else if not k.seek
      then (false, lseek_call new_fd i.offset ∷ close_call new_fd ∷ [])
      else (dup.0, lseek_call new_fd i.offset ∷ dup.1) in
    let status : Bool × List Call =
      if not k.set_fl
      then (false, set_fl_call new_fd i.fs_flags ∷ close_call new_fd ∷ [])
      else (seek.0, set_fl_call new_fd i.fs_flags ∷ seek.1) in
    if not k.set_fd
    then (false, set_fd_call new_fd i.fd_flags ∷ close_call new_fd ∷ [])
    else (status.0, set_fd_call new_fd i.fd_flags ∷ status.1)

-- `Reopen` of one descriptor.
unfoldable pub reopen : Outcomes → Info → Bool × List Call
reopen k i = if i.is_sock then (true, []) else elim k.open_file [
  | none ↦ (false, open_call i.file_path i.open_flags ∷ [])
  | some new_fd ↦ let r = restore k i new_fd in (r.0, open_call i.file_path i.open_flags ∷ r.1)
]
