-- ===== src/MqueueChat/Examples.antt =====
-- 13_mqueue/chat: tests, and the theorems at concrete inputs.
use eltex_homeworks.Prelude.{
  List, take, ◌-◌, ◌<◌, ◌≡◌, refl, false, some, ◌∷◌, ◌++◌, [], arith, length, replicate,
}
use eltex_homeworks.Prelude.Int.{pos}
use eltex_homeworks.Libc.Text.{Text, codes, str_eq, snprintf}
use eltex_homeworks.Libc.Decimal.{print_ℕ, print_int}
use eltex_homeworks.MqueueChat.Wire.{
  new_user, max_size, send_line, joining, saying, read_request, relay, shown_line,
}
use eltex_homeworks.MqueueChat.Server.{
  User, Server, handle, handle_joining, publish, add_user, add_to_history, broadcast, replay,
}
use eltex_homeworks.MqueueChat.Delivery.{places, sent_to, event, welcome, told, handle-told}
use eltex_homeworks.MqueueChat.Room.{
  present, members, queues, descriptors, put, listed, Room, boot, request, Reach, started, next,
}
use eltex_homeworks.MqueueChat.Inbox.{Reach-inbox}
use eltex_homeworks.MqueueChat.Screen.{notice_fields}
use eltex_homeworks.MqueueChat.Names.{count, shown, names}
use eltex_homeworks.MqueueChat.Conversation.{line_of, Conversation, opened, continued}
use eltex_homeworks.MqueueChat.Convergence.{screen_of, Conversation-converges}
use eltex_homeworks.Prelude.Slots.{close_gap, move_down}
use eltex_homeworks.MqueueChat.Client.{UserList, show_user, find_name, hide_user}
use eltex_homeworks.MqueueChat.Talk.{Field, fields, left_fields, read_request-send_line}

ann-Field : Field (codes "ann")
ann-Field = (omega arith, (refl, (refl, (refl, tt))))

hi-Field : Field (codes "hi")
hi-Field = (omega arith, (refl, (refl, tt)))

not_exit : str_eq (codes "hi") (codes "/exit") ≡ false
unfolding str_eq
not_exit = refl

fields-short : length (fields (codes "ann") (pos 42) (codes "hi")) < max_size
unfolding print_int print_ℕ
fields-short = omega arith

left_fields-short : length (left_fields (codes "ann") (pos 42)) < max_size
unfolding print_int print_ℕ
left_fields-short = omega arith

read_request-send_line_example :
    (line : Text) × (send_line (codes "ann") (pos 42) (codes "hi") ≡ some line)
    × (read_request line ≡ some (saying (codes "ann") (pos 42) (codes "hi")))
    × (relay (codes "ann") (pos 42) (codes "hi") ≡ line)
    × (shown_line line ≡ some (snprintf (max_size - 1) (codes "ann" ++ codes ": " ++ codes "hi")))
read_request-send_line_example =
    read_request-send_line (codes "ann") (codes "hi") (pos 42) ann-Field hi-Field not_exit
      fields-short

abbrev empty_server : Server
empty_server = record {
  users = replicate 10 (record { name = []; mq = pos 0; pid = pos 0 });
  active_users = 0;
  history = codes "before" ∷ replicate 99 [];
  history_count = 1;
}

handle-told_example :
    sent_to (pos 5) (handle (pos 5) (joining (codes "ann") (pos 42)) empty_server).0
    ≡ welcome (pos 5) (pos 5) (joining (codes "ann") (pos 42)) empty_server
      ++ told
          (pos 5)
          (event (joining (codes "ann") (pos 42)) empty_server)
          (handle (pos 5) (joining (codes "ann") (pos 42)) empty_server).1
handle-told_example = handle-told (pos 5) (pos 5) (joining (codes "ann") (pos 42)) empty_server

abbrev two_users : UserList
unfolding show_user
two_users =
    show_user (codes "bob")
      (show_user (codes "ann") (record { users = replicate 10 []; users_count = 0 }))

bob_stays : (hide_user (codes "ann") two_users).users_count ≡ 1
unfolding hide_user find_name show_user str_eq close_gap move_down
bob_stays = refl

abbrev no_user : User
no_user = record { name = []; mq = pos 0; pid = pos 0 }

abbrev quiet : Room
quiet = boot (replicate 10 no_user) (replicate 100 [])

abbrev ann_alone : Room
ann_alone = request (pos 5) (joining (codes "ann") (pos 42)) quiet

-- Bob joins behind Ann.
abbrev both : Room
both = request (pos 6) (joining (codes "bob") (pos 43)) ann_alone

quiet-Reach : Reach quiet
quiet-Reach = started (replicate 10 no_user) (replicate 100 []) refl refl

both-Reach : Reach both
unfolding request boot places members handle handle_joining publish add_user add_to_history
both-Reach =
    next (pos 6) (joining (codes "bob") (pos 43))
      (next (pos 5) (joining (codes "ann") (pos 42)) quiet-Reach refl refl) refl refl

two_events : length both.events ≡ 2
unfolding request boot event handle handle_joining publish add_user add_to_history
two_events = refl

bob_once : members (pos 43) (present both.server) ≡ 1
unfolding request boot places members handle handle_joining publish add_user add_to_history
bob_once = refl

Reach-inbox_example :
    (members (pos 43) (present both.server) ≡ 1) × (both.inbox (pos 43) ≡ both.events)
Reach-inbox_example =
    Reach-inbox both both-Reach (omega (arith, two_events)) (pos 43) (omega (arith, bob_once))

-- A process that joins twice has one queue, and it gets everything twice.
abbrev ann_twice : Room
ann_twice = request (pos 6) (joining (codes "ann") (pos 42)) ann_alone

four_messages : length (ann_twice.inbox (pos 42)) ≡ 4
unfolding request boot event handle handle_joining publish add_user add_to_history queues
    descriptors put broadcast replay
four_messages = refl

bob-Field : Field (codes "bob")
bob-Field = (omega arith, (refl, (refl, (refl, tt))))

short_ann : length (notice_fields new_user (codes "ann") (pos 42)) < max_size
unfolding print_int print_ℕ
short_ann = omega arith

short_bob : length (notice_fields new_user (codes "bob") (pos 43)) < max_size
unfolding print_int print_ℕ
short_bob = omega arith

abbrev both_lines : List Text
both_lines =
    ([] ++ listed (line_of (joining (codes "ann") (pos 42)) quiet.server))
    ++ listed (line_of (joining (codes "bob") (pos 43)) ann_alone.server)

both-Conversation : Conversation both both_lines
unfolding request boot places members handle handle_joining publish add_user add_to_history
both-Conversation =
    continued (pos 6) (joining (codes "bob") (pos 43))
      (continued (pos 5) (joining (codes "ann") (pos 42))
        (opened (replicate 10 no_user) (replicate 100 []) refl refl) refl refl
        (ann-Field, short_ann))
      refl refl (bob-Field, short_bob)

Conversation-converges_example :
    (take (screen_of both (pos 43)).chat_lines (screen_of both (pos 43)).chat_history ≡ both_lines)
    × ((screen_of both (pos 43)).list.users_count ≡ both.server.active_users)
    × (count (codes "ann") (shown (screen_of both (pos 43)).list)
        ≡ count (codes "ann") (names both.server))
Conversation-converges_example =
    Conversation-converges both both_lines both-Conversation (omega (arith, two_events)) (pos 43)
      (omega (arith, bob_once)) (codes "ann")
