-- ===== src/SharedChat/Refinement.antt =====
-- 14_shared_memory/chat/server.c: every message keeps the server showing the chat.
use eltex_homeworks.Prelude.{
  ℕ, zero, suc, ◌+◌, ◌-◌, ◌≤◌, ◌<◌, ◌≡◌, refl, sym, ap, subst, subst₂, ◌∙◌, inl, inr, Option, none,
  some, List, [], ◌∷◌, ◌++◌, map, arith, ltb, length, set, take, length-set, length-append, ltb→lt,
  Bool-cases, Option-cases,
}
use eltex_homeworks.Prelude.Int.{ℤ}
use eltex_homeworks.SharedChat.Data.{
  history_size, users_max, new_user, new_message, user_left, Message, copy_name,
}
use eltex_homeworks.Prelude.Slots.{
  store-set, close_gap, remove_at, length-close_gap, take-close_gap, take-set, length-remove_at,
  map-remove_at, map-snoc,
}
use eltex_homeworks.SharedChat.Server.{
  User, ChatServer, boot, find_user, add_to_history, handle_new_user, remove_user, handle_user_left,
  handle,
}
use eltex_homeworks.SharedChat.Spec.{Chat, say, without, join, part, hear, Shows}
use eltex_homeworks.SharedChat.History.{Shows-History, Shows-say, boot-Shows}

-- find_user finds the user that leaves.
find_user-some :
    (pid : ℤ) (us : List User) (n i : ℕ)
    → find_user us n pid ≡ some i
    → (i < n) × (i < length us) × (without pid (take n us) ≡ some (remove_at (take n us) i))
unfolding find_user without
find_user-some pid us zero i e = cc
find_user-some pid [] (suc n) i e = cc
find_user-some pid (u ∷ us) (suc n) i e = elim (Option-cases (find_user us n pid)) [
  | inl none_left ↦ ground arith
  | inr (j, found) ↦ let (lt, le, rest) = find_user-some pid us n j found in ground arith
]

find_user-none :
    (pid : ℤ) (us : List User) (n : ℕ)
    → n ≤ length us
    → find_user us n pid ≡ none
    → without pid (take n us) ≡ none
unfolding find_user without
find_user-none pid us zero h e = refl
find_user-none pid [] (suc n) h e = absurd (omega arith)
find_user-none pid (u ∷ us) (suc n) h e = ground (arith, find_user-none pid us n)

grow {ℓ} :
    {A : Type ℓ} (xs ms : List A) (n p m : ℕ) (v : A)
    → take n xs ≡ ms
    → p ≡ n
    → suc n ≡ m
    → n < length xs
    → take m (set xs p v) ≡ ms ++ v ∷ []
grow xs ms n p m v e ep em h =
    subst (λ k. take k (set xs p v) ≡ ms ++ v ∷ []) em
      (ap (λ k. take (suc n) (set xs k v)) ep ∙ take-set n xs v h ∙ ap (λ l. l ++ v ∷ []) e)

shrink {ℓ} :
    {A : Type ℓ} (xs ms : List A) (n i k m : ℕ)
    → take n xs ≡ ms
    → i + k ≡ m
    → suc m ≡ n
    → n ≤ length xs
    → take m (close_gap k i xs) ≡ remove_at ms i
shrink xs ms n i k m e ek em h =
    take-close_gap i k m xs ek (omega arith) ∙ ap (λ l. remove_at l i) (ap (λ j. take j xs) em ∙ e)

module _ (msg : Message) (s : ChatServer) (c : Chat) (sh : Shows s c) where
  -- case NEW_USER
  new_user-Shows : Shows (handle_new_user msg s) (join msg c)
  unfolding handle_new_user
  new_user-Shows = elim (Bool-cases (ltb s.active_users 10)) [
    | inl room ↦
        let fits : s.active_users < 10 = ltb→lt _ _ room in
        let u : User = record { name = copy_name msg.username; pid = msg.pid } in
        let longer = length-append c.members (u ∷ []) in
        let own = store-set s.users s.active_users u (omega (arith, sh.user_slots)) in
        let told =
          store-set s.shared.users s.shared.users_count u.name
            (omega (arith, sh.name_slots, sh.in_step, sh.active)) in
        rw (own, told, room, sym (ap (λ n. ltb n 10) sh.active) ∙ room)
          (Shows-say msg
            (record {
              users = set s.users s.active_users u;
              active_users = s.active_users + 1;
              shared = record s.shared {
                users = set s.shared.users s.shared.users_count u.name;
                users_count = s.shared.users_count + 1;
              };
            })
            (record c { members = c.members ++ u ∷ [] })
            (length-set s.users s.active_users u ∙ sh.user_slots)
            (length-set s.shared.users s.shared.users_count u.name ∙ sh.name_slots)
            (omega (arith, longer, sh.active)) (omega (arith, longer, sh.active))
            (omega (arith, longer, sh.in_step))
            (grow s.users c.members _ _ _ u sh.members refl (omega (arith, longer, sh.active))
              (omega (arith, sh.user_slots)))
            (grow s.shared.users _ _ _ _ u.name sh.names refl (omega (arith, longer, sh.in_step))
                (omega (arith, sh.name_slots, sh.in_step, sh.active))
              ∙ sym (map-snoc (λ v. v.name) c.members u))
            (Shows-History s c _ _ sh))
    | inr full ↦ rw (full, sym (ap (λ n. ltb n 10) sh.active) ∙ full) sh
  ]

  remove_user-Shows :
      (i : ℕ)
      → i < s.active_users
      → Shows (remove_user i msg s) (say msg (record c { members = remove_at c.members i }))
  unfolding remove_user
  remove_user-Shows i lt =
      let shorter = length-remove_at c.members i (omega (arith, sh.active)) in
      Shows-say msg
        (record {
          users = close_gap (s.active_users - 1 - i) i s.users;
          active_users = s.active_users - 1;
          shared = record s.shared {
            users = close_gap (s.shared.users_count - 1 - i) i s.shared.users;
            users_count = s.shared.users_count - 1;
          };
        })
        (record c { members = remove_at c.members i })
        (length-close_gap (s.active_users - 1 - i) i s.users
            (omega (arith, sh.active, sh.few, sh.user_slots))
          ∙ sh.user_slots)
        (length-close_gap (s.shared.users_count - 1 - i) i s.shared.users
            (omega (arith, sh.active, sh.in_step, sh.few, sh.name_slots))
          ∙ sh.name_slots)
        (omega (arith, shorter, sh.few)) (omega (arith, shorter, sh.active))
        (omega (arith, shorter, sh.in_step))
        (shrink s.users c.members _ i _ _ sh.members (omega (arith, shorter, sh.active))
          (omega (arith, shorter, sh.active)) (omega (arith, sh.active, sh.few, sh.user_slots)))
        (shrink s.shared.users _ _ i _ _ sh.names (omega (arith, shorter, sh.active, sh.in_step))
            (omega (arith, shorter, sh.in_step)) (omega (arith, sh.in_step, sh.few, sh.name_slots))
          ∙ sym (map-remove_at (λ v. v.name) c.members i))
        (Shows-History s c _ _ sh)

  -- case USER_LEFT
  handle_user_left-eq :
      (o : Option ℕ)
      → find_user s.users s.active_users msg.pid ≡ o
      → handle_user_left msg s ≡ elim o [ none ↦ s | some i ↦ remove_user i msg s ]
  unfolding handle_user_left
  handle_user_left-eq o e = ap (λ p. elim p [ none ↦ s | some i ↦ remove_user i msg s ]) e

  part-eq :
      (o : Option (List User))
      → without msg.pid c.members ≡ o
      → part msg c ≡ elim o [ none ↦ c | some us ↦ say msg (record c { members = us }) ]
  part-eq o e = ap (λ p. elim p [ none ↦ c | some us ↦ say msg (record c { members = us }) ]) e

  user_left-Shows : Shows (handle_user_left msg s) (part msg c)
  user_left-Shows = elim (Option-cases (find_user s.users s.active_users msg.pid)) [
    | inl gone ↦
        let stays : without msg.pid c.members ≡ none =
          ap (without msg.pid) (sym sh.members)
          ∙ find_user-none msg.pid s.users s.active_users
              (omega (arith, sh.active, sh.few, sh.user_slots)) gone in
        subst₂ Shows (sym (handle_user_left-eq none gone)) (sym (part-eq none stays)) sh
    | inr (i, found) ↦
        let (lt, within, rest) = find_user-some msg.pid s.users s.active_users i found in
        let goes : without msg.pid c.members ≡ some (remove_at c.members i) =
          subst (λ l. without msg.pid l ≡ some (remove_at l i)) sh.members rest in
        subst₂ Shows (sym (handle_user_left-eq (some i) found)) (sym (part-eq _ goes))
          (remove_user-Shows i lt)
  ]

-- A message, whatever it is, turns a server that shows the chat into one that shows the chat after it.
pub handle-Shows :
    (msg : Message) (s : ChatServer) (c : Chat) → Shows s c → Shows (handle msg s) (hear msg c)
unfolding handle hear
handle-Shows msg s c sh =
    elim msg.type
      as (λ t. Shows (handle (record msg { type = t }) s) (hear (record msg { type = t }) c)) [
        | new_user ↦ new_user-Shows (record msg { type = new_user }) s c sh
        | new_message ↦
            Shows-say (record msg { type = new_message }) s c sh.user_slots sh.name_slots sh.few
              sh.active sh.in_step (subst (λ n. take n s.users ≡ c.members) sh.active sh.members)
              (subst (λ n. take n s.shared.users ≡ map (λ u. u.name) c.members) sh.in_step sh.names)
              (Shows-History s c _ _ sh)
        | user_left ↦ user_left-Shows (record msg { type = user_left }) s c sh
      ]

-- The server and the chat after some messages.
unfoldable pub handle_all : List Message → ChatServer → ChatServer
handle_all [] s = s
handle_all (msg ∷ msgs) s = handle_all msgs (handle msg s)

unfoldable pub hear_all : List Message → Chat → Chat
hear_all [] c = c
hear_all (msg ∷ msgs) c = hear_all msgs (hear msg c)

all-Shows :
    (msgs : List Message) (s : ChatServer) (c : Chat)
    → Shows s c
    → Shows (handle_all msgs s) (hear_all msgs c)
unfolding handle_all hear_all
all-Shows [] s c sh = sh
all-Shows (msg ∷ msgs) s c sh = all-Shows msgs _ _ (handle-Shows msg s c sh)

-- After any messages the server's own table and the shared one hold exactly the users that are in the
-- chat, at most 10, in the order in which they joined, and the shared history holds the first 100
-- events of the chat; no access to these arrays was out of bounds: each of them keeps its length.
pub handle_all-Shows :
    (junk : List User) (msgs : List Message)
    → length junk ≡ users_max
    → Shows (handle_all msgs (boot junk)) (hear_all msgs (record { members = []; events = [] }))
handle_all-Shows junk msgs h = all-Shows msgs _ _ (boot-Shows junk h)

-- Once 100 messages are in the history, no later message changes what clients read of it: neither the
-- history nor the position that they wait for.
handle-silent :
    (msg : Message) (s : ChatServer)
    → history_size ≤ s.shared.history_count
    → ((handle msg s).shared.history ≡ s.shared.history)
      × ((handle msg s).shared.current_pos ≡ s.shared.current_pos)
unfolding handle handle_new_user handle_user_left remove_user add_to_history
handle-silent msg s full = ground arith
