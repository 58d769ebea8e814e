-- ===== src/MqueueChat/Server.antt =====
-- 13_mqueue/chat/server.c: the users, the history, and what main does with a request. mq_open's answer is
-- an argument; the messages that are sent are the first part of the result, in order, each with the
-- queue that it goes to. The writes into the arrays are in bounds: active_users < 10 and history_count < 100
-- are tested before.
use eltex_homeworks.Prelude.{
  ℕ, zero, suc, ◌+◌, ◌-◌, Option, none, some, List, [], ◌∷◌, ◌++◌, leb, ltb, if◌then◌else◌, set,
  take,
}
use eltex_homeworks.Prelude.Int.{ℤ, eqb_ℤ}
use eltex_homeworks.Prelude.Slots.{close_gap}
use eltex_homeworks.Libc.Text.{Text, codes, snprintf}
use eltex_homeworks.Libc.Decimal.{print_int}
use eltex_homeworks.MqueueChat.Wire.{
  max_size, new_user, new_message, user_left, Request, joining, saying, leaving, unknown, relay,
}

abbrev pub history_size : ℕ
history_size = 100

-- user_t
pub record User : Type 0 where
  pub name : Text
  pub mq : ℤ
  pub pid : ℤ

pub record Server : Type 0 where
  pub users : List User
  pub active_users : ℕ
  pub history : List Text
  pub history_count : ℕ

abbrev pub Sent : Type 0
Sent = List (ℤ × Text)

unfoldable pub find_user : List User → ℕ → ℤ → Option ℕ
find_user users zero pid = none
find_user [] (suc count) pid = none
find_user (u ∷ users) (suc count) pid =
    let rest = find_user users count pid in
    if eqb_ℤ u.pid pid then some 0 else elim rest [ none ↦ none | some i ↦ some (suc i) ]

unfoldable pub add_to_history : Text → Server → Server
add_to_history message s = if leb history_size s.history_count then s else record s {
  history = set s.history s.history_count (snprintf max_size message);
  history_count = s.history_count + 1;
}

-- mq_send to every user
unfoldable pub broadcast : List User → ℕ → Text → Sent
broadcast users zero message = []
broadcast [] (suc n) message = []
broadcast (u ∷ users) (suc n) message = (u.mq, message) ∷ broadcast users n message

-- mq_send of the history
unfoldable pub replay : ℤ → List Text → ℕ → Sent
replay mq history zero = []
replay mq [] (suc n) = []
replay mq (h ∷ history) (suc n) = (mq, h) ∷ replay mq history n

-- "%d\n%s\n%d\n"
unfoldable pub notify : ℤ → Text → ℤ → Text
notify type name pid =
    snprintf max_size (print_int type ++ 10 ∷ (name ++ 10 ∷ (print_int pid ++ 10 ∷ [])))

-- The message goes into the history and to every user.
unfoldable pub publish : Text → Server → Sent × Server
publish message s = (broadcast s.users s.active_users message, add_to_history message s)

-- users[active_users++] = ...
unfoldable pub add_user : ℤ → Text → ℤ → Server → Server
add_user mq name pid s = record s {
  users = set s.users s.active_users (record { name = take 19 name; mq = mq; pid = pid });
  active_users = s.active_users + 1;
}

-- The loop that closes the gap; active_users is at least 1 there.
unfoldable pub drop_user : ℕ → Server → Server
drop_user idx s = record s {
  users = close_gap (s.active_users - 1 - idx) idx s.users;
  active_users = s.active_users - 1;
}

-- case NEW_USER; `mq` is the queue that mq_open gives
unfoldable pub handle_joining : ℤ → Text → ℤ → Server → Sent × Server
handle_joining mq name pid s =
    if ltb s.active_users 10
    then (let (out, t) = publish (notify new_user name pid) (add_user mq name pid s) in
        (replay mq s.history s.history_count ++ out, t))
    else ([], s)

-- case USER_LEFT
unfoldable pub handle_leaving : Text → ℤ → Server → Sent × Server
handle_leaving name pid s = elim (find_user s.users s.active_users pid) [
  | none ↦ ([], s)
  | some idx ↦ publish (notify user_left name pid) (drop_user idx s)
]

-- The switch of main.
unfoldable pub handle : ℤ → Request → Server → Sent × Server
handle mq (joining name pid) s = handle_joining mq name pid s
handle mq (saying name pid text) s = publish (relay name pid text) s
handle mq (leaving name pid) s = handle_leaving name pid s
handle mq unknown s = ([], s)

-- cleanup_resources: what every user is sent at the end.
unfoldable pub cleanup_resources : Server → Sent
cleanup_resources s =
    broadcast s.users s.active_users
      (snprintf max_size (print_int new_message ++ codes "\nServer\n0\nServer is shutting down"))
