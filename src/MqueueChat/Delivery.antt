-- ===== src/MqueueChat/Delivery.antt =====
-- 13_mqueue/chat/server.c: which messages a queue gets.
use eltex_homeworks.Prelude.{
  ℕ, zero, suc, ◌≡◌, refl, sym, ap, ap₂, ◌∙◌, inl, inr, Option, none, some, List, [], ◌∷◌, ◌++◌,
  arith, ltb, if◌then◌else◌, take, replicate, Bool-cases,
}
use eltex_homeworks.Prelude.Int.{ℤ, eqb_ℤ}
use eltex_homeworks.Libc.Text.{Text}
use eltex_homeworks.MqueueChat.Wire.{
  new_user, user_left, Request, joining, saying, leaving, unknown, relay,
}
use eltex_homeworks.MqueueChat.Server.{
  User, Server, Sent, find_user, add_to_history, broadcast, replay, notify, publish, add_user,
  drop_user, handle_joining, handle_leaving, handle,
}

-- What is sent to the queue `m`, in order.
unfoldable pub sent_to : ℤ → Sent → List Text
sent_to m [] = []
sent_to m ((mq, t) ∷ out) = let rest = sent_to m out in if eqb_ℤ mq m then t ∷ rest else rest

-- How many of the first users have this queue.
unfoldable pub places : ℤ → List User → ℕ → ℕ
places m users zero = 0
places m [] (suc n) = 0
places m (u ∷ users) (suc n) =
    let rest = places m users n in if eqb_ℤ u.mq m then suc rest else rest

sent_to-append : (m : ℤ) (a b : Sent) → sent_to m (a ++ b) ≡ sent_to m a ++ sent_to m b
unfolding sent_to
sent_to-append m [] b = refl
sent_to-append m ((mq, t) ∷ a) b = ground (arith, sent_to-append m a b)

sent_to-broadcast :
    (m : ℤ) (users : List User) (n : ℕ) (t : Text)
    → sent_to m (broadcast users n t) ≡ replicate (places m users n) t
unfolding sent_to broadcast places
sent_to-broadcast m users zero t = refl
sent_to-broadcast m [] (suc n) t = refl
sent_to-broadcast m (u ∷ users) (suc n) t = ground (arith, sent_to-broadcast m users n t)

sent_to-replay :
    (m mq : ℤ) (history : List Text) (n : ℕ)
    → sent_to m (replay mq history n) ≡ (if eqb_ℤ mq m then take n history else [])
unfolding sent_to replay
sent_to-replay m mq history zero = ground arith
sent_to-replay m mq [] (suc n) = ground arith
sent_to-replay m mq (h ∷ history) (suc n) = ground (arith, sent_to-replay m mq history n)

pub add_to_history-users :
    (t : Text) (s : Server)
    → ((add_to_history t s).users ≡ s.users) × ((add_to_history t s).active_users ≡ s.active_users)
unfolding add_to_history
add_to_history-users t s = ground arith

-- What a request makes known to everyone, if anything.
unfoldable pub event : Request → Server → Option Text
event (joining name pid) s = if ltb s.active_users 10 then some (notify new_user name pid) else none
event (saying name pid text) s = some (relay name pid text)
event (leaving name pid) s = elim (find_user s.users s.active_users pid) [
  | none ↦ none
  | some i ↦ some (notify user_left name pid)
]
event unknown s = none

-- What the queue of a new user gets before that.
unfoldable pub welcome : ℤ → ℤ → Request → Server → List Text
welcome m mq (joining name pid) s =
    if ltb s.active_users 10
    then (if eqb_ℤ mq m then take s.history_count s.history else [])
    else []
welcome m mq _ s = []

abbrev pub told : ℤ → Option Text → Server → List Text
told m none t = []
told m (some e) t = replicate (places m t.users t.active_users) e

publish-told :
    (m : ℤ) (e : Text) (s : Server) → sent_to m (publish e s).0 ≡ told m (some e) (publish e s).1
unfolding publish
publish-told m e s =
    let (same, count) = add_to_history-users e s in
    sent_to-broadcast m s.users s.active_users e
    ∙ ap (λ n. replicate n e) (ap₂ (places m) (sym same) (sym count))

leaving-told :
    (m : ℤ) (e : Text) (s : Server) (o : Option ℕ)
    → sent_to m
        (elim o as (λ x. Sent × Server) [ none ↦ ([], s) | some i ↦ publish e (drop_user i s) ]).0
      ≡ told m
          (elim o [ none ↦ none | some i ↦ some e ])
          (elim o as (λ x. Sent × Server) [ none ↦ ([], s) | some i ↦ publish e (drop_user i s) ]).1
leaving-told m e s none = unfold sent_to in refl
leaving-told m e s (some i) = publish-told m e (drop_user i s)

joining-told :
    (m mq : ℤ) (e name : Text) (pid : ℤ) (s : Server)
    → sent_to m (replay mq s.history s.history_count ++ (publish e (add_user mq name pid s)).0)
      ≡ (if eqb_ℤ mq m then take s.history_count s.history else [])
        ++ told m (some e) (publish e (add_user mq name pid s)).1
joining-told m mq e name pid s =
    sent_to-append m (replay mq s.history s.history_count) _
    ∙ ap₂ (◌++◌) (sent_to-replay m mq s.history s.history_count)
        (publish-told m e (add_user mq name pid s))

-- A request, with any answer of mq_open: after it every queue has got, for each user of the chat that has
-- it, exactly one copy of the event (the user that joined, the text, the user that left), also the one
-- that has just joined and not the one that has left; before that, the queue of a new user gets the
-- whole history so far, oldest first; and nothing else is sent.
pub handle-told :
    (m mq : ℤ) (r : Request) (s : Server)
    → sent_to m (handle mq r s).0 ≡ welcome m mq r s ++ told m (event r s) (handle mq r s).1
unfolding handle event welcome handle_joining handle_leaving
handle-told m mq (joining name pid) s = elim (Bool-cases (ltb s.active_users 10)) [
  | inl room ↦ rw room (joining-told m mq (notify new_user name pid) name pid s)
  | inr full ↦ rw full (unfold sent_to in refl)
]
handle-told m mq (saying name pid text) s = publish-told m (relay name pid text) s
handle-told m mq (leaving name pid) s =
    leaving-told m (notify user_left name pid) s (find_user s.users s.active_users pid)
handle-told m mq unknown s = unfold sent_to in refl
