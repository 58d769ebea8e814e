-- ===== src/SharedChat/Server.antt =====
-- 14_shared_memory/chat/server.c: the messages that main handles, one at a time. Behind an access out of
-- bounds an array is [] (Prelude/Slots.antt).
use eltex_homeworks.Prelude.{
  ℕ, zero, suc, ◌+◌, ◌-◌, ◌%◌, Option, none, some, List, [], ◌∷◌, leb, ltb, if◌then◌else◌,
  replicate,
}
use eltex_homeworks.Prelude.Int.{ℤ, pos, eqb_ℤ}
use eltex_homeworks.Libc.Text.{Text}
use eltex_homeworks.SharedChat.Data.{
  history_size, users_max, new_user, new_message, user_left, Message, SharedData, copy_name,
}
use eltex_homeworks.Prelude.Slots.{store, close_gap}

-- user_t
pub record User : Type 0 where
  pub name : Text
  pub pid : ℤ

-- The globals and the local variables of main.
pub record ChatServer : Type 0 where
  pub users : List User
  pub active_users : ℕ
  pub shared : SharedData

-- A message_t of zero bytes.
abbrev pub zeroed : Message
zeroed = record { type = new_user; username = []; text = []; pid = pos 0 }

-- Behind memset: the array `users` holds whatever it holds.
unfoldable pub boot : List User → ChatServer
boot junk = record {
  users = junk;
  active_users = 0;
  shared = record {
    history = replicate history_size zeroed;
    users = replicate users_max [];
    users_count = 0;
    current_pos = 0;
    history_count = 0;
  };
}

unfoldable pub find_user : List User → ℕ → ℤ → Option ℕ
find_user users zero pid = none
find_user [] (suc count) pid = none
find_user (u ∷ users) (suc count) pid =
    let rest = find_user users count pid in
    if eqb_ℤ u.pid pid then some 0 else elim rest [ none ↦ none | some i ↦ some (suc i) ]

unfoldable pub add_to_history : Message → SharedData → SharedData
add_to_history msg d = if leb history_size d.history_count then d else record d {
  history = store d.history d.current_pos msg;
  current_pos = (d.current_pos + 1) % history_size;
  history_count = if ltb d.history_count history_size then d.history_count + 1 else d.history_count;
}

-- case NEW_USER
unfoldable pub handle_new_user : Message → ChatServer → ChatServer
handle_new_user msg s =
    if ltb s.active_users 10
    then record {
      users =
          store s.users s.active_users (record { name = copy_name msg.username; pid = msg.pid });
      active_users = s.active_users + 1;
      shared = add_to_history msg (record s.shared {
        users = store s.shared.users s.shared.users_count (copy_name msg.username);
        users_count = s.shared.users_count + 1;
      });
    }
    else s

-- case USER_LEFT behind find_user; both counts are at least 1 there
unfoldable pub remove_user : ℕ → Message → ChatServer → ChatServer
remove_user idx msg s = record {
  users = close_gap (s.active_users - 1 - idx) idx s.users;
  active_users = s.active_users - 1;
  shared = add_to_history msg (record s.shared {
    users = close_gap (s.shared.users_count - 1 - idx) idx s.shared.users;
    users_count = s.shared.users_count - 1;
  });
}

unfoldable pub handle_user_left : Message → ChatServer → ChatServer
handle_user_left msg s = elim (find_user s.users s.active_users msg.pid) [
  | none ↦ s
  | some idx ↦ remove_user idx msg s
]

-- The switch of main.
unfoldable pub handle : Message → ChatServer → ChatServer
handle msg s = elim msg.type [
  | new_user ↦ handle_new_user msg s
  | new_message ↦ record s { shared = add_to_history msg s.shared }
  | user_left ↦ handle_user_left msg s
]
