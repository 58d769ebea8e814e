-- ===== src/SharedChat/Data.antt =====
-- 14_shared_memory/chat/chat.h: what the server and the client share. A char array is the text up to its
-- NUL.
use eltex_homeworks.Prelude.{ℕ, ◌-◌, List, take}
use eltex_homeworks.Prelude.Int.{ℤ}
use eltex_homeworks.Libc.Text.{Text}

abbrev pub max_name : ℕ
max_name = 20

abbrev pub max_text : ℕ
max_text = 256

abbrev pub history_size : ℕ
history_size = 100

abbrev pub users_max : ℕ
users_max = 10

-- enum msg_type
pub data MsgType : Type 0 where
  new_user : MsgType
  new_message : MsgType
  user_left : MsgType

pub record Message : Type 0 where
  pub type : MsgType
  pub username : Text
  pub text : Text
  pub pid : ℤ

pub record SharedData : Type 0 where
  pub history : List Message
  pub users : List Text
  pub users_count : ℕ
  pub current_pos : ℕ
  pub history_count : ℕ

-- strncpy(dst, name, MAX_NAME - 1); dst[MAX_NAME - 1] = '\0'
abbrev pub copy_name : Text → Text
copy_name name = take (max_name - 1) name
