-- ===== src/SharedChat/Spec.antt =====
-- 14_shared_memory/chat: the chat as its users see it, without arrays, and what it means that the server
-- shows it.
use eltex_homeworks.Prelude.{
  ◌≤◌, ◌≡◌, Option, none, some, List, [], ◌∷◌, ◌++◌, map, ltb, if◌then◌else◌, length, take, min,
  ◌%◌,
}
use eltex_homeworks.Prelude.Int.{ℤ, eqb_ℤ}
use eltex_homeworks.SharedChat.Data.{
  history_size, users_max, new_user, new_message, user_left, Message, copy_name,
}
use eltex_homeworks.SharedChat.Server.{User, ChatServer}

-- The users, in the order in which they joined, and everything that was said.
pub record Chat : Type 0 where
  pub members : List User
  pub events : List Message

abbrev pub say : Message → Chat → Chat
say msg c = record c { events = c.events ++ msg ∷ [] }

-- The users without the first one that has this pid.
unfoldable pub without : ℤ → List User → Option (List User)
without pid [] = none
without pid (u ∷ us) =
    let rest = without pid us in
    if eqb_ℤ u.pid pid then some us else elim rest [ none ↦ none | some us' ↦ some (u ∷ us') ]

abbrev pub join : Message → Chat → Chat
join msg c =
    if ltb (length c.members) 10
    then say msg (record c {
      members = c.members ++ (record { name = copy_name msg.username; pid = msg.pid }) ∷ [];
    })
    else c

abbrev pub part : Message → Chat → Chat
part msg c = elim (without msg.pid c.members) [
  | none ↦ c
  | some us ↦ say msg (record c { members = us })
]

unfoldable pub hear : Message → Chat → Chat
hear msg c = elim msg.type [
  | new_user ↦ join msg c
  | new_message ↦ say msg c
  | user_left ↦ part msg c
]

-- The arrays have their sizes, the server's own table and the shared one both hold the members, and the
-- shared history holds the first 100 events.
pub record Shows (s : ChatServer) (c : Chat) : Type 0 where
  pub user_slots : length s.users ≡ users_max
  pub name_slots : length s.shared.users ≡ users_max
  pub history_slots : length s.shared.history ≡ history_size
  pub few : length c.members ≤ users_max
  pub active : s.active_users ≡ length c.members
  pub in_step : s.shared.users_count ≡ length c.members
  pub members : take s.active_users s.users ≡ c.members
  pub names : take s.shared.users_count s.shared.users ≡ map (λ u. u.name) c.members
  pub counted : s.shared.history_count ≡ min history_size (length c.events)
  pub recorded : take s.shared.history_count s.shared.history ≡ take history_size c.events
  pub position : s.shared.current_pos ≡ s.shared.history_count % history_size
