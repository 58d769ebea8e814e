-- ===== src/MqueueChat/Conversation.antt =====
-- 13_mqueue/chat: requests as the clients send them.
use eltex_homeworks.Prelude.{
  ℕ, ◌<◌, ◌≡◌, refl, inl, inr, Option, none, some, List, [], ◌++◌, arith, ltb, if◌then◌else◌,
  length, get_elem?, length-append, Bool-cases,
}
use eltex_homeworks.Prelude.Int.{ℤ}
use eltex_homeworks.Libc.Text.{Text}
use eltex_homeworks.MqueueChat.Wire.{
  max_size, new_user, user_left, Request, joining, saying, leaving, unknown,
}
use eltex_homeworks.MqueueChat.Server.{notify, User, Server, history_size, find_user}
use eltex_homeworks.MqueueChat.Talk.{Field, fields}
use eltex_homeworks.MqueueChat.Delivery.{places, event}
use eltex_homeworks.MqueueChat.Room.{Room, listed, request, boot, IsAllowed, Reach, started, next}
use eltex_homeworks.MqueueChat.Screen.{joined_line, gone_line, said_line, notice_fields}
use eltex_homeworks.MqueueChat.Names.{names}

-- A request as the clients send it: the fields are not empty and have no newline, the message fits, and
-- who leaves gives the name under which the pid is in the chat.
abbrev pub Honest : Request → Server → Type 0
Honest (joining name pid) s = Field name × (length (notice_fields new_user name pid) < max_size)
Honest (saying name pid text) s =
    Field name × Field text × (length (fields name pid text) < max_size)
Honest (leaving name pid) s =
    Field name
    × (length (notice_fields user_left name pid) < max_size)
    × ((i : ℕ) → find_user s.users s.active_users pid ≡ some i → get_elem? (names s) i ≡ some name)
Honest unknown s = Unit {0}

-- The line that a client shows for it, if it makes something known.
unfoldable pub line_of : Request → Server → Option Text
line_of (joining name pid) s = if ltb s.active_users 10 then some (joined_line name) else none
line_of (saying name pid text) s = some (said_line name text)
line_of (leaving name pid) s = elim (find_user s.users s.active_users pid) [
  | none ↦ none
  | some i ↦ some (gone_line name)
]
line_of unknown s = none

-- Requests of honest clients, and their lines.
pub data Conversation : Room → List Text → Type 0 where
  opened :
      (users : List User) (history : List Text)
      → length users ≡ 10
      → length history ≡ history_size
      → Conversation (boot users history) []
  continued :
      {room : Room} {lines : List Text} (mq : ℤ) (r : Request)
      → Conversation room lines
      → places mq room.server.users room.server.active_users ≡ 0
      → IsAllowed r room.server
      → Honest r room.server
      → Conversation (request mq r room) (lines ++ listed (line_of r room.server))

pub Conversation-Reach : (room : Room) (lines : List Text) → Conversation room lines → Reach room
Conversation-Reach _ _ (opened users history size depth) = started users history size depth
Conversation-Reach _ _ (continued {room} {lines} mq r talk fresh allowed honest) =
    next mq r (Conversation-Reach room lines talk) fresh allowed

as_many : (r : Request) (s : Server) → length (listed (line_of r s)) ≡ length (listed (event r s))
unfolding line_of event
as_many (joining name pid) s = elim (Bool-cases (ltb s.active_users 10)) [
  | inl room ↦ rw room refl
  | inr full ↦ rw full refl
]
as_many (saying name pid text) s = refl
as_many (leaving name pid) s = of_both (find_user s.users s.active_users pid)
  where
    of_both :
        (o : Option ℕ)
        → length (listed (elim o [ none ↦ none | some i ↦ some (gone_line name) ]))
          ≡ length (listed (elim o [ none ↦ none | some i ↦ some (notify user_left name pid) ]))
    of_both none = refl
    of_both (some i) = refl
as_many unknown s = refl

-- A line for every event.
pub Conversation-length :
    (room : Room) (lines : List Text) → Conversation room lines → length lines ≡ length room.events
unfolding request boot
Conversation-length _ _ (opened users history size depth) = refl
Conversation-length _ _ (continued {room} {lines} mq r talk fresh allowed honest) = omega (
  arith,
  Conversation-length room lines talk,
  length-append lines (listed (line_of r room.server)),
  length-append room.events (listed (event r room.server)),
  as_many r room.server,
)
