-- ===== src/SharedChat/Examples.antt =====
-- 14_shared_memory/chat: tests, and the theorems at concrete inputs.
use eltex_homeworks.Prelude.{
  ℕ, ◌≤◌, ◌<◌, ◌≡◌, refl, List, [], ◌∷◌, arith, length, take, replicate, true, some,
}
use eltex_homeworks.Prelude.Int.{pos}
use eltex_homeworks.Libc.Text.{codes, str_eq}
use eltex_homeworks.SharedChat.Data.{history_size, new_user, new_message, user_left, Message}
use eltex_homeworks.Prelude.Slots.{close_gap, move_down, store}
use eltex_homeworks.SharedChat.Server.{
  User, ChatServer, boot, find_user, add_to_history, handle_new_user, remove_user, handle_user_left,
  handle,
}
use eltex_homeworks.SharedChat.Client.{
  start_client, copy_users, read_message, poll, line_of, redraw_chat, compose,
}
use eltex_homeworks.SharedChat.Spec.{hear, Shows}
use eltex_homeworks.SharedChat.Refinement.{handle_all, hear_all, handle_all-Shows}
use eltex_homeworks.SharedChat.System.{System, tell, read, Reach, started, next}
use eltex_homeworks.SharedChat.Reading.{Reach-reads}

abbrev junk : List User
junk = replicate 10 (record { name = []; pid = pos 0 })

abbrev alice_joins : Message
alice_joins = record { type = new_user; username = codes "alice"; text = []; pid = pos 7 }

abbrev bob_joins : Message
bob_joins = record { type = new_user; username = codes "bob"; text = []; pid = pos 8 }

abbrev hello : Message
hello = record { type = new_message; username = codes "alice"; text = codes "hello"; pid = pos 7 }

abbrev alice_leaves : Message
alice_leaves = record { type = user_left; username = codes "alice"; text = []; pid = pos 7 }

abbrev talk : List Message
talk = alice_joins ∷ bob_joins ∷ hello ∷ alice_leaves ∷ []

bob_stays :
    take 1 (handle_all talk (boot junk)).users ≡ record { name = codes "bob"; pid = pos 8 } ∷ []
unfolding handle_all handle handle_new_user handle_user_left remove_user find_user boot
    add_to_history close_gap move_down store
bob_stays = refl

-- One message and one read.
one_line : (s : System) × Reach s
one_line = (_, next (next (started junk refl) (tell hello)) read)

abbrev shown_lines : List (List ℕ)
unfolding handle boot poll read_message copy_users start_client redraw_chat line_of add_to_history
    store
shown_lines = redraw_chat 24 (poll (handle hello (boot junk)).shared start_client)

line_shown : shown_lines ≡ codes "alice: hello" ∷ []
unfolding handle boot poll read_message copy_users start_client redraw_chat line_of add_to_history
    store
line_shown = refl

exit_leaves : compose (codes "/exit") hello ≡ some (record hello { type = user_left }, true)
unfolding compose str_eq
exit_leaves = refl

handle_all-Shows_example :
    Shows (handle_all talk (boot junk)) (hear_all talk (record { members = []; events = [] }))
handle_all-Shows_example = handle_all-Shows junk talk refl

abbrev full_server : ChatServer
full_server = record {
  users = junk;
  active_users = 0;
  shared = record {
    history = replicate 100 hello;
    users = replicate 10 [];
    users_count = 0;
    current_pos = 0;
    history_count = 100;
  };
}

one_line-few : length one_line.0.chat.events < history_size
unfolding one_line hear
one_line-few = omega arith

Reach-reads_example :
    (take one_line.0.client.chat_lines one_line.0.client.chat_history
      ≡ take one_line.0.client.chat_lines one_line.0.chat.events)
    × (one_line.0.client.chat_lines ≤ length one_line.0.chat.events)
    × (one_line.0.client.last_read_pos ≡ one_line.0.server.shared.current_pos
        → one_line.0.client.chat_lines ≡ length one_line.0.chat.events)
Reach-reads_example = Reach-reads one_line.0 one_line.1 one_line-few
