-- ===== src/MqueueChat/Linking.antt =====
-- 13_mqueue/chat/server.c: the queues of the users, over one request.
use eltex_homeworks.Prelude.{
  ℕ, ◌≤◌, ◌<◌, ◌≡◌, refl, sym, subst, ap, ◌∙◌, true, inl, inr, Option, none, some, List, [], ◌∷◌,
  ◌++◌, append_assoc, arith, if◌then◌else◌, ltb, length, take, append-nil, Bool-cases,
}
use eltex_homeworks.Prelude.Int.{ℤ, eqb_ℤ}
use eltex_homeworks.Libc.Text.{Text}
use eltex_homeworks.MqueueChat.Wire.{
  new_user, user_left, Request, joining, saying, leaving, unknown, relay,
}
use eltex_homeworks.MqueueChat.Server.{
  User, Server, Sent, find_user, broadcast, replay, notify, publish, add_user, drop_user,
  handle_joining, handle_leaving, handle,
}
use eltex_homeworks.MqueueChat.Delivery.{places, event}
use eltex_homeworks.MqueueChat.Room.{
  present, members, listed, descriptors, queues, forget, put, IsAllowed,
}
use eltex_homeworks.MqueueChat.Members.{
  find_user-lt, present-publish, present-add_user, present-drop_user,
}
use eltex_homeworks.MqueueChat.Queues.{put-append}
use eltex_homeworks.MqueueChat.Boxes.{
  Linked, Boxed, with_more, told-Linked, told-Boxed, gone-Linked, gone-Boxed, joined-Linked,
  joined-Boxed,
}

-- What a request makes of the queues.
pub record Links (mq : ℤ) (r : Request) (s : Server) (opened : ℤ → Option ℤ) (inbox : ℤ → List Text)
    (out : Sent) (t : Server) : Type 0 where
  pub linked :
      Linked
        (present t)
        (descriptors mq r s opened)
        (with_more (descriptors mq r s opened) out (queues r s inbox))
  pub boxed :
      (events : List Text)
      → take s.history_count s.history ≡ events
      → Boxed (present s) inbox events
      → Boxed
          (present t)
          (with_more (descriptors mq r s opened) out (queues r s inbox))
          (events ++ listed (event r s))

-- Sent one after the other.
with_more-append :
    (opened : ℤ → Option ℤ) (a b : Sent) (inbox : ℤ → List Text)
    → with_more opened b (with_more opened a inbox) ≡ with_more opened (a ++ b) inbox
with_more-append opened a b inbox i p =
    (append_assoc (inbox p) (put opened p a) (put opened p b)
        ∙ ap (◌++◌ (inbox p)) (sym (put-append opened p a b)))
      i

with_more-nothing :
    (opened : ℤ → Option ℤ) (inbox : ℤ → List Text) → inbox ≡ with_more opened [] inbox
unfolding put
with_more-nothing opened inbox i p = sym (append-nil (inbox p)) i

-- From what is known of the users and the queues after the request.
Links-of :
    (mq : ℤ) (r : Request) (s t : Server) (opened opened' : ℤ → Option ℤ)
    (inbox inbox' : ℤ → List Text) (out out' : Sent) (us : List User) (o : Option Text)
    → opened' ≡ descriptors mq r s opened
    → inbox' ≡ queues r s inbox
    → out' ≡ out
    → us ≡ present t
    → event r s ≡ o
    → Linked us opened' (with_more opened' out' inbox')
    → ((events : List Text)
        → take s.history_count s.history ≡ events
        → Boxed (present s) inbox events
        → Boxed us (with_more opened' out' inbox') (events ++ listed o))
    → Links mq r s opened inbox out t
Links-of mq r s t opened opened' inbox inbox' out out' us o d q e u h l b =
    let same : with_more opened' out' inbox'
        ≡ with_more (descriptors mq r s opened) out (queues r s inbox) =
      λ i. with_more (d i) (e i) (q i) in
    record {
      linked =
          subst
            (λ v.
              Linked v (descriptors mq r s opened)
                (with_more (descriptors mq r s opened) out (queues r s inbox)))
            u
            (subst (λ w. Linked us (descriptors mq r s opened) w) same
              (subst (λ c. Linked us c (with_more opened' out' inbox')) d l));
      boxed = λ events is boxed.
          subst
            (λ v.
              Boxed v (with_more (descriptors mq r s opened) out (queues r s inbox))
                (events ++ listed (event r s)))
            u
            (subst (λ w. Boxed us w (events ++ listed (event r s))) same
              (subst (λ p. Boxed us (with_more opened' out' inbox') (events ++ listed p)) (sym h)
                (b events is boxed)));
    }

module _ (mq : ℤ) (s : Server) (opened : ℤ → Option ℤ) (inbox : ℤ → List Text)
    (before : Linked (present s) opened inbox) where
  silent-Links :
      (r : Request)
      → event r s ≡ none
      → opened ≡ descriptors mq r s opened
      → inbox ≡ queues r s inbox
      → Links mq r s opened inbox [] s
  silent-Links r h d q =
      let same = with_more-nothing opened inbox in
      Links-of mq r s s opened opened inbox inbox [] [] (present s) none d q refl refl h
        (subst (Linked (present s) opened) same before)
        (λ events is boxed.
          subst (Boxed (present s) (with_more opened [] inbox)) (sym (append-nil events))
            (subst (λ w. Boxed (present s) w events) same boxed))

  saying-Links :
      (name : Text) (pid : ℤ) (text : Text)
      → Links mq
          (saying name pid text)
          s
          opened
          inbox
          (publish (relay name pid text) s).0
          (publish (relay name pid text) s).1
  unfolding descriptors queues event publish
  saying-Links name pid text =
      let told = relay name pid text in
      Links-of mq (saying name pid text) s (publish told s).1 opened opened inbox inbox _
        (broadcast s.users s.active_users told) (present s) (some told) refl refl refl
        (sym (present-publish told s)) refl
        (told-Linked opened inbox s.users s.active_users told before)
        (λ events is boxed. told-Boxed opened inbox s.users s.active_users told events before boxed)

  leaving-Links :
      (name : Text) (pid : ℤ) (o : Option ℕ)
      → find_user s.users s.active_users pid ≡ o
      → s.active_users ≤ length s.users
      → Links mq
          (leaving name pid)
          s
          opened
          inbox
          (handle_leaving name pid s).0
          (handle_leaving name pid s).1
  unfolding handle_leaving event descriptors queues
  leaving-Links name pid none e few =
      rw (e, handle_leaving)
        (silent-Links (leaving name pid) (rw (e, event) refl) (rw (e, descriptors) refl)
          (rw (e, queues) refl))
  leaving-Links name pid (some i) e few =
      let told = notify user_left name pid in
      let t = drop_user i s in
      let left = present-drop_user i s (find_user-lt s.users s.active_users pid i e) few in
      let opened' : ℤ → Option ℤ = λ m. forget pid (opened m) in
      let inbox' : ℤ → List Text = λ p. if eqb_ℤ pid p then [] else inbox p in
      let without =
        subst (λ us. Linked us opened' inbox') (sym left)
          (gone-Linked opened inbox s.users s.active_users i pid e before) in
      rw (e, handle_leaving)
        (Links-of mq (leaving name pid) s (publish told t).1 opened opened' inbox inbox' _
          (broadcast t.users t.active_users told) (present t) (some told) (rw (e, descriptors) refl)
          (rw (e, queues) refl) (unfold publish in refl) (sym (present-publish told t))
          (rw (e, event) refl) (told-Linked opened' inbox' t.users t.active_users told without)
          (λ events is boxed. told-Boxed opened' inbox' t.users t.active_users told events without (
            subst (λ us. Boxed us inbox' events) (sym left)
              (gone-Boxed opened inbox s.users s.active_users i pid events e before boxed))))

  joined-Links :
      (name : Text) (pid : ℤ)
      → ltb s.active_users 10 ≡ true
      → s.active_users < length s.users
      → places mq s.users s.active_users ≡ 0
      → members pid (present s) ≡ 0
      → Links mq
          (joining name pid)
          s
          opened
          inbox
          (replay mq s.history s.history_count
            ++ (publish (notify new_user name pid) (add_user mq name pid s)).0)
          (publish (notify new_user name pid) (add_user mq name pid s)).1
  unfolding descriptors event notify
  joined-Links name pid room lt fresh outside =
      let told = notify new_user name pid in
      let t = add_user mq name pid s in
      let opened' : ℤ → Option ℤ = λ m. if eqb_ℤ mq m then some pid else opened m in
      let welcome = replay mq s.history s.history_count in
      let more = present-add_user mq name pid s lt in
      let joined =
        subst (λ us. Linked us opened' (with_more opened' welcome inbox)) (sym more)
          (joined-Linked opened inbox mq name pid s.users s.active_users fresh outside before
            s.history s.history_count) in
      let same = with_more-append opened' welcome (broadcast t.users t.active_users told) inbox in
      Links-of mq (joining name pid) s (publish told t).1 opened opened' inbox inbox _
        (welcome ++ broadcast t.users t.active_users told) (present t) (some told)
        (rw (room, descriptors) refl) (unfold queues in refl) (unfold publish in refl)
        (sym (present-publish told t)) (rw (room, event) refl)
        (subst (Linked (present t) opened') same (
          told-Linked opened' (with_more opened' welcome inbox) t.users t.active_users told joined))
        (λ events is boxed.
          subst (λ w. Boxed (present t) w (events ++ told ∷ [])) same
            (told-Boxed opened' (with_more opened' welcome inbox) t.users t.active_users told events
              joined
              (subst (λ us. Boxed us (with_more opened' welcome inbox) events) (sym more)
                (joined-Boxed opened inbox mq name pid s.users s.active_users fresh outside before
                  s.history s.history_count events is boxed))))

  pub handle-Links :
      (r : Request)
      → length s.users ≡ 10
      → s.active_users ≤ 10
      → places mq s.users s.active_users ≡ 0
      → IsAllowed r s
      → Links mq r s opened inbox (handle mq r s).0 (handle mq r s).1
  unfolding handle handle_joining event descriptors
  handle-Links (joining name pid) size few fresh outside =
      elim (Bool-cases (ltb s.active_users 10)) [
        | inl room ↦ rw room (joined-Links name pid room (ground arith) fresh outside)
        | inr full ↦ rw full (
            silent-Links (joining name pid) (rw (full, event) refl) (rw (full, descriptors) refl)
              (unfold queues in refl))
      ]
  handle-Links (saying name pid text) size few fresh allowed = saying-Links name pid text
  handle-Links (leaving name pid) size few fresh allowed =
      leaving-Links name pid (find_user s.users s.active_users pid) refl (omega arith)
  handle-Links unknown size few fresh allowed =
      silent-Links unknown (unfold event in refl) (unfold descriptors in refl)
        (unfold queues in refl)
