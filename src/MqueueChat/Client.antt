-- ===== src/MqueueChat/Client.antt =====
-- 13_mqueue/chat/client.c: the users that the client shows.
use eltex_homeworks.Prelude.{
  ℕ, zero, suc, ◌+◌, ◌-◌, Option, none, some, List, [], ◌∷◌, ltb, if◌then◌else◌, set, take,
}
use eltex_homeworks.Prelude.Slots.{close_gap}
use eltex_homeworks.Libc.Text.{Text, str_eq}

abbrev pub users_max : ℕ
users_max = 10

pub record UserList : Type 0 where
  pub users : List Text
  pub users_count : ℕ

unfoldable pub show_user : Text → UserList → UserList
show_user name l =
    if ltb l.users_count users_max
    then record {
      users = set l.users l.users_count (take 19 name);
      users_count = l.users_count + 1;
    }
    else l

-- The loop of remove_user up to the name.
unfoldable pub find_name : Text → List Text → ℕ → Option ℕ
find_name name users zero = none
find_name name [] (suc count) = none
find_name name (u ∷ users) (suc count) =
    let rest = find_name name users count in
    if str_eq u name then some 0 else elim rest [ none ↦ none | some i ↦ some (suc i) ]

-- The first user of the name goes, and the gap is closed; users_count is at least 1 there.
unfoldable pub hide_user : Text → UserList → UserList
hide_user name l = elim (find_name name l.users l.users_count) [
  | none ↦ l
  | some i ↦ record {
    users = close_gap (l.users_count - 1 - i) i l.users;
    users_count = l.users_count - 1;
  }
]
