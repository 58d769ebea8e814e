-- ===== src/MqueueChat/Convergence.antt =====
-- 13_mqueue/chat: what the clients show, and the server.
use eltex_homeworks.Prelude.{
  ℕ, ◌+◌, ◌≤◌, ◌<◌, ◌≡◌, refl, sym, subst, ap, ◌∙◌, false, inl, inr, Option, none, some, List, [],
  ◌∷◌, ◌++◌, arith, leb, ltb, length, take, length-set, length-append, append-nil, Bool-cases,
}
use eltex_homeworks.Prelude.Int.{ℤ}
use eltex_homeworks.Libc.Text.{Text}
use eltex_homeworks.MqueueChat.Wire.{
  new_user, user_left, Request, joining, saying, leaving, unknown, relay,
}
use eltex_homeworks.MqueueChat.Server.{
  User, Server, find_user, notify, publish, add_user, drop_user, handle_joining, handle_leaving,
  handle,
}
use eltex_homeworks.MqueueChat.Client.{UserList, show_user, hide_user}
use eltex_homeworks.MqueueChat.Delivery.{event, add_to_history-users}
use eltex_homeworks.MqueueChat.Room.{Room, present, members, listed, request, boot}
use eltex_homeworks.MqueueChat.Members.{find_user-lt}
use eltex_homeworks.MqueueChat.Inbox.{Reach-Chat, Reach-inbox}
use eltex_homeworks.MqueueChat.Screen.{
  Screen, start_screen, receive_message, receive_all, receive_all-append, next_line, put_line,
  joined_line, gone_line, said_line, receive_message-joined, receive_message-left,
  receive_message-said,
}
use eltex_homeworks.MqueueChat.Names.{count, shown, names, take-added}
use eltex_homeworks.MqueueChat.Users.{Agrees, Agrees-joining, Agrees-leaving}
use eltex_homeworks.MqueueChat.Conversation.{
  Honest, line_of, Conversation, opened, continued, Conversation-Reach, Conversation-length,
}

-- The lines on the screen of a client.
record Lines (c : Screen) (lines : List Text) : Type 0 where
  depth : length c.chat_history ≡ 100
  shows :
      length lines ≤ 99 → (c.chat_lines ≡ length lines) × (take c.chat_lines c.chat_history ≡ lines)

Lines-more :
    (c : Screen) (l : UserList) (lines : List Text) (line : Text)
    → Lines c lines
    → Lines (next_line (put_line line (record c { list = l }))) (lines ++ line ∷ [])
unfolding next_line
Lines-more c l lines line old = record {
  depth = length-set c.chat_history c.chat_lines line ∙ old.depth;
  shows = λ few.
      let more = length-append lines (line ∷ []) in
      let (same, are) = old.shows (omega arith) in
      let room : leb 100 (c.chat_lines + 1) ≡ false = ground arith in
      rw room (
        omega arith,
        take-added c.chat_lines c.chat_history line (omega (arith, old.depth))
            ∙ ap (λ t. t ++ line ∷ []) are,
      );
}

-- A screen follows the chat.
record Follows (c : Screen) (s : Server) (lines : List Text) : Type 0 where
  agrees : Agrees c.list s
  on_screen : Lines c lines

Agrees-publish : (e : Text) (l : UserList) (s : Server) → Agrees l s → Agrees l (publish e s).1
unfolding publish
Agrees-publish e l s a =
    let (users, active) = add_to_history-users e s in
    record {
      size = a.size;
      same_count = a.same_count ∙ sym active;
      same_names = λ x. rw (users, active) (a.same_names x);
    }

-- What a request makes known, as a client takes it.
screen_after : Option Text → Screen → Screen
screen_after none c = c
screen_after (some e) c = receive_message e c

record Step (r : Request) (s t : Server) (c : Screen) (lines : List Text) : Type 0 where
  follows : Follows (screen_after (event r s) c) t (lines ++ listed (line_of r s))

silent :
    (r : Request) (s : Server) (c : Screen) (lines : List Text)
    → event r s ≡ none
    → line_of r s ≡ none
    → Follows c s lines
    → Step r s s c lines
unfolding screen_after
silent r s c lines h k f = record {
  follows = rw (h, k) (subst (Follows c s) (sym (append-nil lines)) f);
}

-- Something is published once the users have changed on both sides.
noticed :
    (r : Request) (s u : Server) (c : Screen) (l : UserList) (lines : List Text) (e line : Text)
    → event r s ≡ some e
    → line_of r s ≡ some line
    → receive_message e c ≡ next_line (put_line line (record c { list = l }))
    → Agrees l u
    → Lines c lines
    → Step r s (publish e u).1 c lines
unfolding screen_after next_line
noticed r s u c l lines e line h k received a old = record {
  follows =
      rw (h, k, received)
        (record { agrees = Agrees-publish e l u a; on_screen = Lines-more c l lines line old });
}

module _ (mq : ℤ) (s : Server) (c : Screen) (lines : List Text) (size : length s.users ≡ 10)
    (few : s.active_users ≤ 10) (f : Follows c s lines) where
  joining-Step :
      (name : Text) (pid : ℤ)
      → Honest (joining name pid) s
      → Step (joining name pid) s (handle_joining mq name pid s).1 c lines
  unfolding handle_joining event line_of notify
  joining-Step name pid (n, short) = elim (Bool-cases (ltb s.active_users 10)) [
    | inl room ↦
        rw (room, handle_joining)
          (noticed (joining name pid) s (add_user mq name pid s) c (show_user name c.list) lines
            (notify new_user name pid) (joined_line name) (rw (room, event) refl)
            (rw (room, line_of) refl) (receive_message-joined name pid c n short)
            (Agrees-joining mq pid name c.list s (ground arith) size f.agrees) f.on_screen)
    | inr full ↦
        rw (full, handle_joining)
          (silent (joining name pid) s c lines (rw (full, event) refl) (rw (full, line_of) refl) f)
  ]

  leaving-Step :
      (name : Text) (pid : ℤ)
      → Honest (leaving name pid) s
      → (o : Option ℕ) → find_user s.users s.active_users pid ≡ o
      → Step (leaving name pid) s (handle_leaving name pid s).1 c lines
  unfolding handle_leaving event line_of
  leaving-Step name pid honest none e =
      rw (e, handle_leaving)
        (silent (leaving name pid) s c lines (rw (e, event) refl) (rw (e, line_of) refl) f)
  leaving-Step name pid (n, short, own) (some i) e =
      rw (e, handle_leaving)
        (noticed (leaving name pid) s (drop_user i s) c (hide_user name c.list) lines
          (notify user_left name pid) (gone_line name) (rw (e, event) refl) (rw (e, line_of) refl)
          (receive_message-left name pid c n short)
          (Agrees-leaving name i c.list s (find_user-lt s.users s.active_users pid i e) few size
            (own i e) f.agrees)
          f.on_screen)

  handle-Step : (r : Request) → Honest r s → Step r s (handle mq r s).1 c lines
  unfolding handle event line_of
  handle-Step (joining name pid) honest = joining-Step name pid honest
  handle-Step (saying name pid text) (n, t, short) =
      noticed (saying name pid text) s s c c.list lines (relay name pid text) (said_line name text)
        refl refl (receive_message-said name text pid c n t short) f.agrees f.on_screen
  handle-Step (leaving name pid) honest =
      leaving-Step name pid honest (find_user s.users s.active_users pid) refl
  handle-Step unknown honest = silent unknown s c lines refl refl f

boot-Follows :
    (users : List User) (history : List Text) → Follows start_screen (boot users history).server []
unfolding start_screen boot count
boot-Follows users history = record {
  agrees = record { size = refl; same_count = refl; same_names = λ x. refl };
  on_screen = record { depth = refl; shows = λ few. (refl, refl) };
}

receive_listed : (o : Option Text) (c : Screen) → receive_all (listed o) c ≡ screen_after o c
unfolding screen_after receive_all
receive_listed none c = refl
receive_listed (some e) c = refl

Conversation-Follows :
    (room : Room) (lines : List Text)
    → Conversation room lines
    → Follows (receive_all room.events start_screen) room.server lines
unfolding request receive_all
Conversation-Follows _ _ (opened users history size depth) =
    unfold boot in boot-Follows users history
Conversation-Follows _ _ (continued {room} {lines} mq r talk fresh allowed honest) =
    let chat = Reach-Chat room (Conversation-Reach room lines talk) in
    let screen = receive_all room.events start_screen in
    subst (λ c. Follows c (handle mq r room.server).1 (lines ++ listed (line_of r room.server)))
      (sym (
        receive_all-append room.events (listed (event r room.server)) start_screen
        ∙ receive_listed (event r room.server) screen))
      (handle-Step mq room.server screen lines chat.size chat.count
        (Conversation-Follows room lines talk) r honest).follows

-- What a client shows that has received what lies in the queue with the name of its pid.
abbrev pub screen_of : Room → ℤ → Screen
screen_of room pid = receive_all (room.inbox pid) start_screen

-- A conversation of honest clients (fields that are not empty and have no newline, messages that fit into
-- 255 bytes, who leaves gives the name of its pid, and a process joins only while it is not in the chat),
-- where mq_open gives a descriptor that no user of the chat has and no queue with a user's name is there at
-- the start, with at most 99 events: the client of every user
-- of the chat, once it has received what lies in its queue, shows the lines of all events in order and as
-- many users as the server has, every name as often as it is in the server.
pub Conversation-converges :
    (room : Room) (lines : List Text)
    → Conversation room lines
    → length room.events ≤ 99
    → (pid : ℤ) → 0 < members pid (present room.server)
    → (name : Text)
    → (take (screen_of room pid).chat_lines (screen_of room pid).chat_history ≡ lines)
      × ((screen_of room pid).list.users_count ≡ room.server.active_users)
      × (count name (shown (screen_of room pid).list) ≡ count name (names room.server))
Conversation-converges room lines talk few pid member name =
    let f = Conversation-Follows room lines talk in
    let short = Conversation-length room lines talk in
    let (_, all) = Reach-inbox room (Conversation-Reach room lines talk) (omega arith) pid member in
    subst
      (λ messages.
        let c = receive_all messages start_screen in
        (take c.chat_lines c.chat_history ≡ lines)
        × (c.list.users_count ≡ room.server.active_users)
        × (count name (shown c.list) ≡ count name (names room.server)))
      (sym all) ((f.on_screen.shows (omega arith)).1, f.agrees.same_count, f.agrees.same_names name)
