-- ===== src/Membased/Client.antt =====
-- xposed_service.cpp, lines 244-312: the client's side of a call, for `accessFile` and `statFile`.
-- Here the calling thread has the service to itself; Protocol has any number of clients.
use xposed.Prelude.{
  ltb, ◌==◌, if◌then◌else◌, Bytes, length, ℤ, minus_one, ℕ, ◌-◌, Bool, not, ltb-of_le, ◌<◌, ◌≡◌,
  false, arith,
}
use xposed.FileSystem.{FileSystem}
use xposed.Membased.Process.{Process, is_service_accessible}
use xposed.Membased.Server.{server_turn}
use xposed.Membased.Shared.{
  state_idle, state_service_action, Action, op_none, op_access_file, op_stat_file, Stat,
  access_file, stat_file, MemBasedState, Layout, access_member, stat_member,
}
use xposed.Platform.{Errnos}

-- What a function of the client returns and leaves behind.
pub record Reply {ℓ} (A : Type ℓ) : Type ℓ where
  pub value : A
  pub process : Process
  pub memory : MemBasedState

-- `callService` up to the wait for the response.
unfoldable pub begin_call : Action → MemBasedState → MemBasedState
begin_call a sh = record sh { action = a; state = state_service_action; error = 0 }

-- `makeIdle`.
unfoldable pub make_idle : MemBasedState → MemBasedState
make_idle sh = record sh { action = op_none; state = state_idle }

-- `strlen(path) > sizeof(…::path) - 1`, where the array has `path_max` bytes.
unfoldable pub is_too_long : ℕ → Bytes → Bool
is_too_long path_max path = ltb (path_max - 1) (length path)

pub not-is_too_long :
    (path_max : ℕ) (path : Bytes) → length path < path_max → is_too_long path_max path ≡ false
unfolding is_too_long
not-is_too_long path_max path h = ltb-of_le (path_max - 1) (length path) (omega arith)

-- Writing the arguments into the union: `strcpy` of the path, then the mode.
unfoldable pub put_access : Layout → Bytes → ℕ → MemBasedState → MemBasedState
put_access l path mode sh = record sh {
  member = access_file (record (access_member l sh.member) { path = path; mode = mode });
}

unfoldable pub put_stat : Layout → Bytes → MemBasedState → MemBasedState
put_stat l path sh = record sh {
  member = stat_file (record (stat_member l sh.member) { path = path });
}

-- `errno = shared->error; return shared->error ? -1 : data->result`
unfoldable pub outcome : ℕ → ℤ → ℤ
outcome error result = if error == 0 then result else minus_one

-- `callService`: the request, the server's turn, the response.
unfoldable pub call_service : Layout → FileSystem → Action → MemBasedState → MemBasedState
unfolding begin_call server_turn
call_service l fs a sh = server_turn l fs (begin_call a sh)

module _ (e : Errnos) (path_max : ℕ) (l : Layout) (fs : FileSystem) where
  unfoldable pub access_file_call : Process → Bytes → ℕ → MemBasedState → Reply ℤ
  unfolding is_service_accessible is_too_long put_access call_service make_idle outcome
  access_file_call p path mode sh =
      let (accessible, p') = is_service_accessible e p in
      let final = make_idle (call_service l fs op_access_file (put_access l path mode sh)) in
      if not accessible
      then record { value = minus_one; process = p'; memory = sh }
      else if is_too_long path_max path
      then record { value = minus_one; process = record p' { errno = e.enametoolong }; memory = sh }
      else record {
        value = outcome final.error (access_member l final.member).result;
        process = record p' { errno = final.error };
        memory = final;
      }

  -- The caller's `struct stat` is written before the error is looked at.
  unfoldable pub stat_file_call : Process → Bytes → Stat → MemBasedState → Reply (ℤ × Stat)
  unfolding is_service_accessible is_too_long put_stat call_service make_idle outcome
  stat_file_call p path st sh =
      let (accessible, p') = is_service_accessible e p in
      let final = make_idle (call_service l fs op_stat_file (put_stat l path sh)) in
      if not accessible
      then record { value = (minus_one, st); process = p'; memory = sh }
      else if is_too_long path_max path
      then record {
        value = (minus_one, st);
        process = record p' { errno = e.enametoolong };
        memory = sh;
      }
      else record {
        value = (
          outcome final.error (stat_member l final.member).result,
          (stat_member l final.member).st,
        );
        process = record p' { errno = final.error };
        memory = final;
      }
