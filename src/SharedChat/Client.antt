-- ===== src/SharedChat/Client.antt =====
-- 14_shared_memory/chat/client.c: what the reader takes over from the shared memory, what it shows, and
-- the messages that the sender sends.
use eltex_homeworks.Prelude.{
  ℕ, zero, suc, ◌+◌, ◌-◌, ◌%◌, Bool, true, false, Option, none, some, List, [], ◌∷◌, ◌++◌, map, leb,
  ltb, ◌==◌, if◌then◌else◌, get_or, set, take, drop, replicate,
}
use eltex_homeworks.Libc.Text.{Text, codes, str_eq}
use eltex_homeworks.SharedChat.Data.{
  max_text, history_size, users_max, new_user, new_message, user_left, Message, SharedData,
  copy_name,
}
use eltex_homeworks.SharedChat.Server.{zeroed}

-- The globals of the client.
pub record ChatClient : Type 0 where
  pub chat_history : List Message
  pub chat_lines : ℕ
  pub users : List Text
  pub users_count : ℕ
  pub last_read_pos : ℕ

unfoldable pub start_client : ChatClient
start_client = record {
  chat_history = replicate history_size zeroed;
  chat_lines = 0;
  users = replicate users_max [];
  users_count = 0;
  last_read_pos = 0;
}

-- The loop that copies the names of the users: `i` have been copied, `n` are left.
unfoldable pub copy_users : ℕ → ℕ → List Text → List Text → List Text
copy_users zero i from to = to
copy_users (suc n) i from to = copy_users n (i + 1) from (set to i (copy_name (get_or from i [])))

-- One round of the inner loop of receiver_thread.
unfoldable pub read_message : SharedData → ChatClient → ChatClient
read_message d c = record {
  chat_history = set c.chat_history c.chat_lines (get_or d.history c.last_read_pos zeroed);
  chat_lines = if leb history_size (c.chat_lines + 1) then 0 else c.chat_lines + 1;
  users = copy_users d.users_count 0 d.users c.users;
  users_count = d.users_count;
  last_read_pos = (c.last_read_pos + 1) % history_size;
}

-- Its test, and the round.
unfoldable pub poll : SharedData → ChatClient → ChatClient
poll d c = if c.last_read_pos == d.current_pos then c else read_message d c

-- A line of redraw_chat.
unfoldable pub line_of : Message → Text
line_of msg = elim msg.type [
  | new_user ↦ codes "User " ++ msg.username ++ codes " joined the chat!"
  | user_left ↦ codes "User " ++ msg.username ++ codes " left the chat!"
  | new_message ↦ msg.username ++ codes ": " ++ msg.text
]

-- redraw_chat on a screen of `lines` rows. With fewer than 6 rows nothing is drawn: there LINES - 6 is
-- negative and `start` lies behind the last line.
unfoldable pub redraw_chat : ℕ → ChatClient → List Text
redraw_chat lines c =
    let start = if ltb (lines - 6) c.chat_lines then c.chat_lines - (lines - 6) else 0 in
    map line_of (drop start (take c.chat_lines c.chat_history))

-- sender_thread on a line that was typed: the message that is sent, if any, and whether the thread
-- leaves. `msg` holds the name and the pid, and the text of the message before.
unfoldable pub compose : Text → Message → Option (Message × Bool)
compose [] msg = none
compose (c ∷ text) msg =
    if str_eq (c ∷ text) (codes "/exit")
    then some (record msg { type = user_left }, true)
    else some (record msg { type = new_message; text = take (max_text - 1) (c ∷ text) }, false)
