-- ===== src/Membased/Shared.antt =====
-- xposed_service.cpp, lines 42-95: the memory that the Zygote and its service share.
use xposed.Prelude.{ℕ, ℤ, Bool, Bytes}

pub data State : Type 0 where
  state_not_running state_idle state_service_action state_server_response : State

pub data Action : Type 0 where
  op_none op_access_file op_stat_file op_read_file : Action

-- The fields of `struct stat` that the program reads.
pub record Stat : Type 0 where
  pub st_size : ℕ
  pub st_mtime : ℕ
  pub is_directory : Bool
  pub st_uid : ℕ
  pub st_gid : ℕ

pub record AccessFileData : Type 0 where
  pub path : Bytes
  pub mode : ℕ
  pub result : ℤ

pub record StatFileData : Type 0 where
  pub path : Bytes
  pub st : Stat
  pub result : ℤ

pub record ReadFileData : Type 0 where
  pub path : Bytes
  pub offset : ℕ
  pub total_size : ℤ
  pub bytes_read : ℕ
  pub eof : Bool
  pub content : Bytes

-- The union: the member that was written last.
pub data Member : Type 0 where
  access_file : AccessFileData → Member
  stat_file : StatFileData → Member
  read_file : ReadFileData → Member

pub record MemBasedState : Type 0 where
  pub state : State
  pub action : Action
  pub error : ℕ
  pub member : Member

-- What the bytes of the union read as when they are taken for a member that was not written last.
-- It depends on the compiler's layout, and is a parameter of everything that reads a member.
pub record Layout : Type 0 where
  pub as_access : Member → AccessFileData
  pub as_stat : Member → StatFileData
  pub as_read : Member → ReadFileData

-- `&shared->data.accessFile`, and so on.
abbrev pub access_member : Layout → Member → AccessFileData
access_member l (access_file d) = d
access_member l (stat_file d) = l.as_access (stat_file d)
access_member l (read_file d) = l.as_access (read_file d)

abbrev pub stat_member : Layout → Member → StatFileData
stat_member l (access_file d) = l.as_stat (access_file d)
stat_member l (stat_file d) = d
stat_member l (read_file d) = l.as_stat (read_file d)

abbrev pub read_member : Layout → Member → ReadFileData
read_member l (access_file d) = l.as_read (access_file d)
read_member l (stat_file d) = l.as_read (stat_file d)
read_member l (read_file d) = d
