-- ===== src/SharedChat/History.antt =====
-- 14_shared_memory/chat/server.c: add_to_history on the events, and what it takes to go on showing the
-- chat.
use eltex_homeworks.Prelude.{
  ℕ, zero, suc, ◌+◌, ◌%◌, ◌≤◌, ◌<◌, ◌≡◌, refl, sym, ap, ap₂, subst, ◌∙◌, inl, inr, true, false,
  List, [], ◌∷◌, ◌++◌, map, arith, leb, ltb, length, set, take, min, length-set, length-append,
  Bool-cases,
}
use eltex_homeworks.Libc.Text.{Text}
use eltex_homeworks.SharedChat.Data.{history_size, users_max, Message, SharedData}
use eltex_homeworks.Prelude.Slots.{store-set, take-set}
use eltex_homeworks.SharedChat.Server.{User, ChatServer, boot, add_to_history}
use eltex_homeworks.SharedChat.Spec.{Chat, say, Shows}

-- The history part of Shows, on the shared data and the events alone.
pub record History (d : SharedData) (events : List Message) : Type 0 where
  pub history_slots : length d.history ≡ history_size
  pub counted : d.history_count ≡ min history_size (length events)
  pub recorded : take d.history_count d.history ≡ take history_size events
  pub position : d.current_pos ≡ d.history_count % history_size

-- Beyond the bound nothing is added.
take-full :
    (n : ℕ) (xs : List Message) (x : Message) → n ≤ length xs → take n (xs ++ x ∷ []) ≡ take n xs
take-full zero xs x h = refl
take-full (suc n) [] x h = absurd (omega arith)
take-full (suc n) (y ∷ xs) x h = ap (◌∷◌ y) (take-full n xs x (omega arith))

take-room :
    (n : ℕ) (xs : List Message) (x : Message)
    → length xs < n
    → take n (xs ++ x ∷ []) ≡ take n xs ++ x ∷ []
take-room zero xs x h = absurd (omega arith)
take-room (suc n) [] x h = take-one n
  where
    take-one : (n : ℕ) → take (suc n) (x ∷ []) ≡ x ∷ []
    take-one zero = refl
    take-one (suc n) = refl
take-room (suc n) (y ∷ xs) x h = ap (◌∷◌ y) (take-room n xs x (omega arith))

suc-add : (n : ℕ) → suc n ≡ n + 1
suc-add n = omega arith

recorded-room :
    (n p : ℕ) (xs : List Message) (x : Message)
    → p ≡ n
    → n < length xs
    → take (n + 1) (set xs p x) ≡ take n xs ++ x ∷ []
recorded-room n p xs x e h =
    subst (λ k. take k (set xs p x) ≡ take n xs ++ x ∷ []) (suc-add n)
      (subst (λ k. take (suc n) (set xs k x) ≡ take n xs ++ x ∷ []) (sym e) (take-set n xs x h))

module _ (msg : Message) (d : SharedData) where
  add_to_history-full : leb history_size d.history_count ≡ true → add_to_history msg d ≡ d
  unfolding add_to_history
  add_to_history-full full = rw full

  add_to_history-room :
      leb history_size d.history_count ≡ false
      → d.current_pos < length d.history
      → add_to_history msg d ≡ record d {
        history = set d.history d.current_pos msg;
        current_pos = (d.current_pos + 1) % history_size;
        history_count = d.history_count + 1;
      }
  unfolding add_to_history
  add_to_history-room room within =
      let counted : ltb d.history_count history_size ≡ true = ground arith in
      rw (room, counted, store-set d.history d.current_pos msg within) refl

  add_to_history-History :
      (events : List Message)
      → History d events
      → History (add_to_history msg d) (events ++ msg ∷ [])
  add_to_history-History events hist = elim (Bool-cases (leb history_size d.history_count)) [
    | inl full ↦
        let long : history_size ≤ length events = ground (arith, hist.counted) in
        subst (λ d'. History d' (events ++ msg ∷ [])) (sym (add_to_history-full full))
          (record {
            history_slots = hist.history_slots;
            counted = omega (arith, hist.counted, long, length-append events (msg ∷ []));
            recorded = hist.recorded ∙ sym (take-full history_size events msg long);
            position = hist.position;
          })
    | inr room ↦
        let short : length events < history_size = ground (arith, hist.counted) in
        let count : d.history_count ≡ length events = omega (arith, hist.counted, short) in
        let pos : d.current_pos ≡ d.history_count = omega (arith, hist.position, count, short) in
        let within : d.current_pos < length d.history =
          omega (arith, pos, count, short, hist.history_slots) in
        subst (λ d'. History d' (events ++ msg ∷ [])) (sym (add_to_history-room room within))
          (record {
            history_slots = length-set d.history d.current_pos msg ∙ hist.history_slots;
            counted = omega (arith, count, short, length-append events (msg ∷ []));
            recorded =
                recorded-room _ _ d.history msg pos
                  (omega (arith, hist.history_slots, count, short))
                ∙ ap (λ l. l ++ msg ∷ []) hist.recorded
                ∙ sym (take-room history_size events msg short);
            position = omega (arith, pos);
          })
  ]

  add_to_history-users :
      ((add_to_history msg d).users ≡ d.users)
      × ((add_to_history msg d).users_count ≡ d.users_count)
  unfolding add_to_history
  add_to_history-users = ground arith

pub Shows-History :
    (s : ChatServer) (c : Chat) (names : List Text) (n : ℕ)
    → Shows s c
    → History (record s.shared { users = names; users_count = n }) c.events
Shows-History s c names n sh = record {
  history_slots = sh.history_slots;
  counted = sh.counted;
  recorded = sh.recorded;
  position = sh.position;
}

-- A change of the members, and the message that tells it.
pub Shows-say :
    (msg : Message) (s : ChatServer) (c : Chat)
    → length s.users ≡ users_max
    → length s.shared.users ≡ users_max
    → length c.members ≤ users_max
    → s.active_users ≡ length c.members
    → s.shared.users_count ≡ length c.members
    → take (length c.members) s.users ≡ c.members
    → take (length c.members) s.shared.users ≡ map (λ u. u.name) c.members
    → History s.shared c.events
    → Shows (record s { shared = add_to_history msg s.shared }) (say msg c)
Shows-say msg s c us ns few act step ms nms hist =
    let (same, same_count) = add_to_history-users msg s.shared in
    let told = add_to_history-History msg s.shared c.events hist in
    record {
      user_slots = us;
      name_slots = ap length same ∙ ns;
      history_slots = told.history_slots;
      few = few;
      active = act;
      in_step = same_count ∙ step;
      members = ap (λ n. take n s.users) act ∙ ms;
      names = ap₂ take (same_count ∙ step) same ∙ nms;
      counted = told.counted;
      recorded = told.recorded;
      position = told.position;
    }

pub boot-Shows :
    (junk : List User)
    → length junk ≡ users_max
    → Shows (boot junk) (record { members = []; events = [] })
unfolding boot
boot-Shows junk h = record {
  user_slots = h;
  name_slots = refl;
  history_slots = refl;
  few = omega arith;
  active = refl;
  in_step = refl;
  members = refl;
  names = refl;
  counted = omega arith;
  recorded = refl;
  position = omega arith;
}
