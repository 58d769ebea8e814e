-- ===== src/MqueueChat/Users.antt =====
-- 13_mqueue/chat: the server and a client that has received everything agree on the users.
use eltex_homeworks.Prelude.{
  ℕ, ◌+◌, ◌≤◌, ◌<◌, ◌≡◌, refl, sym, ap, ◌∙◌, Option, none, some, List, [], ◌∷◌, ◌++◌, map, arith,
  length, get_elem?, take,
}
use eltex_homeworks.Prelude.Int.{ℤ}
use eltex_homeworks.Prelude.Slots.{remove_at, map-remove_at, map-snoc}
use eltex_homeworks.Libc.Text.{Text, str_eq, str_eq_refl}
use eltex_homeworks.MqueueChat.Server.{Server, add_user, drop_user}
use eltex_homeworks.MqueueChat.Client.{UserList, users_max, show_user, find_name, hide_user}
use eltex_homeworks.MqueueChat.Names.{
  count, one_if, count-snoc, count-remove_at, find_name-found, find_name-none, shown, name_of,
  names, take-added, take-dropped, show_user-shown, hide_user-some,
}

-- A client and the server agree on the users: as many, and every name as often.
pub record Agrees (l : UserList) (s : Server) : Type 0 where
  pub size : length l.users ≡ users_max
  pub same_count : l.users_count ≡ s.active_users
  pub same_names : (x : Text) → count x (shown l) ≡ count x (names s)

names-add_user :
    (mq pid : ℤ) (name : Text) (s : Server)
    → s.active_users < length s.users
    → names (add_user mq name pid s) ≡ names s ++ take 19 name ∷ []
unfolding add_user
names-add_user mq pid name s lt =
    ap (map name_of) (take-added s.active_users s.users _ lt)
    ∙ map-snoc name_of (take s.active_users s.users) _

names-drop_user :
    (i : ℕ) (s : Server)
    → i < s.active_users
    → s.active_users ≤ length s.users
    → names (drop_user i s) ≡ remove_at (names s) i
unfolding drop_user
names-drop_user i s lt h =
    ap (map name_of) (take-dropped s.active_users i s.users lt h)
    ∙ map-remove_at name_of (take s.active_users s.users) i

pub Agrees-joining :
    (mq pid : ℤ) (name : Text) (l : UserList) (s : Server)
    → s.active_users < users_max
    → length s.users ≡ users_max
    → Agrees l s
    → Agrees (show_user name l) (add_user mq name pid s)
Agrees-joining mq pid name l s room full a =
    let (listed, more, size) = show_user-shown name l a.size (omega (arith, a.same_count)) in
    record {
      size = size;
      same_count = unfold add_user in omega (arith, more, a.same_count);
      same_names = λ x.
          ap (count x) listed
          ∙ count-snoc x (shown l) (take 19 name)
          ∙ ap (λ n. n + one_if (str_eq (take 19 name) x)) (a.same_names x)
          ∙ sym (count-snoc x (names s) (take 19 name))
          ∙ ap (count x) (sym (names-add_user mq pid name s (omega arith)));
    }

-- The same name taken out of both lists.
both_removed :
    (name : Text) (xs ys : List Text) (i j : ℕ)
    → ((x : Text) → count x xs ≡ count x ys)
    → get_elem? xs i ≡ some name
    → get_elem? ys j ≡ some name
    → (x : Text) → count x (remove_at xs i) ≡ count x (remove_at ys j)
both_removed name xs ys i j same at_i at_j x =
    omega (arith, count-remove_at x xs i name at_i, count-remove_at x ys j name at_j, same x)

count-there :
    (name : Text) (xs : List Text) (i : ℕ) → get_elem? xs i ≡ some name → 0 < count name xs
count-there name xs i h =
    let removed = rw (str_eq_refl name) at (count-remove_at name xs i name h) in
    omega (arith, removed)

pub Agrees-leaving :
    (name : Text) (i : ℕ) (l : UserList) (s : Server)
    → i < s.active_users
    → s.active_users ≤ users_max
    → length s.users ≡ users_max
    → get_elem? (names s) i ≡ some name
    → Agrees l s
    → Agrees (hide_user name l) (drop_user i s)
Agrees-leaving name i l s lt few full at a = hidden (find_name name l.users l.users_count) refl
  where
    hidden :
        (o : Option ℕ)
        → find_name name l.users l.users_count ≡ o
        → Agrees (hide_user name l) (drop_user i s)
    hidden none e = absurd (
        omega (
          arith,
          find_name-none name l.users l.users_count e,
          a.same_names name,
          count-there name (names s) i at,
        ))
    hidden (some j) e =
        let (listed, fewer, size) =
          hide_user-some name j l a.size (omega (arith, a.same_count)) e in
        let (_, found) = find_name-found name l.users l.users_count j e in
        record {
          size = size;
          same_count = unfold drop_user in omega (arith, fewer, a.same_count);
          same_names = λ x.
              ap (count x) listed
              ∙ both_removed name (shown l) (names s) j i a.same_names found at x
              ∙ ap (count x) (sym (names-drop_user i s lt (omega arith)));
        }
