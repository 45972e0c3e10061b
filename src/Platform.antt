-- ===== src/Platform.antt =====
-- Constants of the system's headers, which are not in this repository: a parameter of the model.
use xposed.Prelude.{ℕ, ◌<◌, arith}

-- Values of `errno`.
pub record Errnos : Type 0 where
  pub eperm : ℕ
  pub enoent : ℕ
  pub enomem : ℕ
  pub eisdir : ℕ
  pub einval : ℕ
  pub ebusy : ℕ
  pub enametoolong : ℕ

-- None of them means success.
pub record IsErrnos (e : Errnos) : Type 0 where
  pub eperm_pos : 0 < e.eperm
  pub enoent_pos : 0 < e.enoent
  pub enomem_pos : 0 < e.enomem
  pub eisdir_pos : 0 < e.eisdir
  pub einval_pos : 0 < e.einval
  pub ebusy_pos : 0 < e.ebusy
  pub enametoolong_pos : 0 < e.enametoolong

-- Those of Linux.
abbrev pub linux : Errnos
linux = record {
  eperm = 1;
  enoent = 2;
  enomem = 12;
  eisdir = 21;
  einval = 22;
  ebusy = 16;
  enametoolong = 36;
}

pub linux-IsErrnos : IsErrnos linux
linux-IsErrnos = omega arith
