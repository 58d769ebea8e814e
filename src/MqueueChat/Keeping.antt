-- ===== src/MqueueChat/Keeping.antt =====
-- 13_mqueue/chat/server.c: what a request leaves of the users and the history.
use eltex_homeworks.Prelude.{
  ℕ, ◌+◌, ◌-◌, ◌≤◌, ◌≡◌, refl, sym, ap, ap₂, ◌∙◌, true, inl, inr, Option, none, some, List, arith,
  ltb, leb, if◌then◌else◌, length, set, Bool-cases, length-set, length-take, take_all,
}
use eltex_homeworks.Prelude.Int.{ℤ}
use eltex_homeworks.Prelude.Slots.{length-close_gap}
use eltex_homeworks.Libc.Text.{Text, snprintf}
use eltex_homeworks.MqueueChat.Wire.{
  max_size, new_user, user_left, Request, joining, saying, leaving, unknown, relay,
}
use eltex_homeworks.MqueueChat.Server.{
  Server, history_size, find_user, add_to_history, notify, publish, add_user, drop_user,
  handle_joining, handle_leaving, handle,
}
use eltex_homeworks.MqueueChat.Delivery.{event, add_to_history-users}
use eltex_homeworks.MqueueChat.Members.{find_user-lt, newcomer}

-- The history with an event behind the others.
unfoldable pub written : Option Text → List Text → ℕ → List Text × ℕ
written none h n = (h, n)
written (some e) h n = if leb history_size n then (h, n) else (set h n e, n + 1)

-- What a request leaves of the users and the history.
pub record Keeps (r : Request) (s t : Server) : Type 0 where
  pub size : length t.users ≡ length s.users
  pub count : t.active_users ≤ 10
  pub recorded : (t.history, t.history_count) ≡ written (event r s) s.history s.history_count

abbrev Fits : Text → Type 0
Fits e = snprintf max_size e ≡ e

snprintf-Fits : (s : Text) → Fits (snprintf max_size s)
snprintf-Fits s = take_all 255 (snprintf max_size s) (omega (arith, length-take 255 s))

publish-recorded :
    (e : Text) (t : Server)
    → Fits e
    → ((publish e t).1.history, (publish e t).1.history_count)
      ≡ written (some e) t.history t.history_count
unfolding publish add_to_history written
publish-recorded e t fits = elim (Bool-cases (leb history_size t.history_count)) [
  | inl full ↦ rw full refl
  | inr room ↦ rw (room, fits) refl
]

-- The users are changed before something is published.
published :
    (r : Request) (e : Text) (s t : Server)
    → Fits e
    → event r s ≡ some e
    → length t.users ≡ length s.users
    → t.active_users ≤ 10
    → t.history ≡ s.history
    → t.history_count ≡ s.history_count
    → Keeps r s (publish e t).1
unfolding publish
published r e s t fits told size count same same_count =
    let (users, active) = add_to_history-users e t in
    record {
      size = ap length users ∙ size;
      count = rw active count;
      recorded =
          publish-recorded e t fits
          ∙ ap₂ (written (some e)) same same_count
          ∙ ap (λ o. written o s.history s.history_count) (sym told);
    }

stays : (r : Request) (s : Server) → event r s ≡ none → s.active_users ≤ 10 → Keeps r s s
unfolding written
stays r s silent count = record {
  size = refl;
  count = count;
  recorded = ap (λ o. written o s.history s.history_count) (sym silent);
}

module _ (mq : ℤ) (s : Server) (size : length s.users ≡ 10) (count : s.active_users ≤ 10) where
  joined :
      (name : Text) (pid : ℤ)
      → ltb s.active_users 10 ≡ true
      → Keeps (joining name pid) s (publish (notify new_user name pid) (add_user mq name pid s)).1
  unfolding notify event
  joined name pid room =
      published (joining name pid) (notify new_user name pid) s (add_user mq name pid s)
        (snprintf-Fits _) (rw room refl)
        (unfold add_user in length-set s.users s.active_users (newcomer mq name pid))
        (unfold add_user in ground arith) (unfold add_user in refl) (unfold add_user in refl)

  joining-Keeps :
      (name : Text) (pid : ℤ) → Keeps (joining name pid) s (handle_joining mq name pid s).1
  unfolding handle_joining event
  joining-Keeps name pid = elim (Bool-cases (ltb s.active_users 10)) [
    | inl room ↦ rw room (joined name pid room)
    | inr full ↦ rw full (stays (joining name pid) s (rw full refl) count)
  ]

  left :
      (name : Text) (pid : ℤ) (i : ℕ)
      → find_user s.users s.active_users pid ≡ some i
      → Keeps (leaving name pid) s (publish (notify user_left name pid) (drop_user i s)).1
  unfolding notify event
  left name pid i found =
      let lt = find_user-lt s.users s.active_users pid i found in
      published (leaving name pid) (notify user_left name pid) s (drop_user i s) (snprintf-Fits _)
        (rw (found, event) refl)
        (unfold drop_user in length-close_gap (s.active_users - 1 - i) i s.users (omega arith))
        (unfold drop_user in omega arith) (unfold drop_user in refl) (unfold drop_user in refl)

  leaving-Keeps :
      (name : Text) (pid : ℤ) (o : Option ℕ)
      → find_user s.users s.active_users pid ≡ o
      → Keeps (leaving name pid) s (handle_leaving name pid s).1
  unfolding handle_leaving event
  leaving-Keeps name pid none e =
      rw (e, handle_leaving) (stays (leaving name pid) s (rw (e, event) refl) count)
  leaving-Keeps name pid (some i) e = rw (e, handle_leaving) (left name pid i e)

  pub handle-Keeps : (r : Request) → Keeps r s (handle mq r s).1
  unfolding handle relay event
  handle-Keeps (joining name pid) = joining-Keeps name pid
  handle-Keeps (saying name pid text) =
      published (saying name pid text) (relay name pid text) s s (snprintf-Fits _) refl refl count
        refl refl
  handle-Keeps (leaving name pid) =
      leaving-Keeps name pid (find_user s.users s.active_users pid) refl
  handle-Keeps unknown = stays unknown s refl count
