-- ===== src/MqueueChat/Boxes.antt =====
-- 13_mqueue/chat/server.c: what lies in the queues of the users, when one joins, leaves, or something is
-- made known.
use eltex_homeworks.Prelude.{
  ℕ, ◌+◌, ◌≤◌, ◌≡◌, refl, subst, ap, ◌∙◌, inl, inr, Option, some, List, [], ◌∷◌, ◌++◌, arith,
  if◌then◌else◌, take, replicate, append-nil, Bool-cases,
}
use eltex_homeworks.Prelude.Int.{ℤ, eqb_ℤ, eqb_ℤ_eq, eqb_ℤ_refl}
use eltex_homeworks.Prelude.Slots.{remove_at}
use eltex_homeworks.Libc.Text.{Text}
use eltex_homeworks.MqueueChat.Server.{User, Sent, find_user, broadcast, replay}
use eltex_homeworks.MqueueChat.Delivery.{places}
use eltex_homeworks.MqueueChat.Room.{members, forget, put}
use eltex_homeworks.MqueueChat.Members.{newcomer}
use eltex_homeworks.MqueueChat.Queues.{
  Home, members-append, members-found, Home-append, Home-remove_at, Home-fresh, Home-forget,
  put-broadcast, put-replay,
}

-- Every user has a queue of its own, and the other pids have none with anything in it.
pub record Linked (us : List User) (opened : ℤ → Option ℤ) (inbox : ℤ → List Text) : Type 0 where
  pub home : Home opened us
  pub apart : (p : ℤ) → members p us ≤ 1
  pub empty : (p : ℤ) → members p us ≡ 0 → inbox p ≡ []

-- What lies in the queues of the users.
pub record Boxed (us : List User) (inbox : ℤ → List Text) (events : List Text) : Type 0 where
  pub full : (p : ℤ) → members p us ≡ 1 → inbox p ≡ events

abbrev pub with_more : (ℤ → Option ℤ) → Sent → (ℤ → List Text) → ℤ → List Text
with_more opened out inbox p = inbox p ++ put opened p out

module _ (opened : ℤ → Option ℤ) (inbox : ℤ → List Text) where
  -- Something is sent to every user.
  put-told :
      (users : List User) (n k : ℕ) (t : Text) (p : ℤ)
      → Home opened (take n users)
      → members p (take n users) ≡ k
      → with_more opened (broadcast users n t) inbox p ≡ inbox p ++ replicate k t
  put-told users n k t p home e =
      ap (◌++◌ (inbox p)) (put-broadcast opened p users n t home ∙ ap (λ j. replicate j t) e)

  pub told-Linked :
      (users : List User) (n : ℕ) (t : Text)
      → Linked (take n users) opened inbox
      → Linked (take n users) opened (with_more opened (broadcast users n t) inbox)
  told-Linked users n t before = record {
    home = before.home;
    apart = before.apart;
    empty = λ p e. put-told users n 0 t p before.home e ∙ append-nil (inbox p) ∙ before.empty p e;
  }

  pub told-Boxed :
      (users : List User) (n : ℕ) (t : Text) (events : List Text)
      → Linked (take n users) opened inbox
      → Boxed (take n users) inbox events
      → Boxed (take n users) (with_more opened (broadcast users n t) inbox) (events ++ t ∷ [])
  told-Boxed users n t events before boxed = record {
    full = λ p e. put-told users n 1 t p before.home e ∙ ap (λ l. l ++ t ∷ []) (boxed.full p e);
  }

  -- A user leaves.
  abbrev unlinked : ℤ → ℤ → List Text
  unlinked pid p = if eqb_ℤ pid p then [] else inbox p

  pub gone-Linked :
      (users : List User) (n i : ℕ) (pid : ℤ)
      → find_user users n pid ≡ some i
      → Linked (take n users) opened inbox
      → Linked (remove_at (take n users) i) (λ m. forget pid (opened m)) (unlinked pid)
  gone-Linked users n i pid found before = record {
    home =
        Home-forget opened pid (remove_at (take n users) i)
          (let one = rw (eqb_ℤ_refl pid) at (members-found pid pid users n i found) in
            let few = before.apart pid in omega arith)
          (Home-remove_at opened (take n users) i before.home);
    apart = λ p.
        let one = members-found pid p users n i found in let few = before.apart p in omega arith;
    empty = λ p e. elim (Bool-cases (eqb_ℤ pid p)) [
      | inl this ↦ rw this refl
      | inr other ↦
          let one = rw other at (members-found pid p users n i found) in
          rw other (before.empty p (omega arith))
    ];
  }

  pub gone-Boxed :
      (users : List User) (n i : ℕ) (pid : ℤ) (events : List Text)
      → find_user users n pid ≡ some i
      → Linked (take n users) opened inbox
      → Boxed (take n users) inbox events
      → Boxed (remove_at (take n users) i) (unlinked pid) events
  gone-Boxed users n i pid events found before boxed = record {
    full = λ p e. elim (Bool-cases (eqb_ℤ pid p)) [
      | inl this ↦
          let one = rw this at (members-found pid p users n i found) in
          let few = before.apart p in absurd (omega arith)
      | inr other ↦
          let one = rw other at (members-found pid p users n i found) in
          rw other (boxed.full p (omega arith))
    ];
  }

  -- A process joins that is not in the chat.
  module _ (mq : ℤ) (name : Text) (pid : ℤ) (users : List User) (n : ℕ)
      (fresh : places mq users n ≡ 0) (outside : members pid (take n users) ≡ 0)
      (before : Linked (take n users) opened inbox) where
    abbrev joined : ℤ → Option ℤ
    joined m = if eqb_ℤ mq m then some pid else opened m

    members-joined :
        (p : ℤ)
        → members p (take n users ++ newcomer mq name pid ∷ [])
          ≡ members p (take n users) + (if eqb_ℤ pid p then 1 else 0)
    members-joined p =
        members-append p (take n users) (newcomer mq name pid ∷ [])
        ∙ ap (λ k. members p (take n users) + k) (unfold members in refl)

    put-welcome :
        (history : List Text) (k : ℕ) (p : ℤ)
        → with_more joined (replay mq history k) inbox p
          ≡ inbox p ++ (if eqb_ℤ pid p then take k history else [])
    put-welcome history k p =
        ap (◌++◌ (inbox p)) (put-replay joined p mq history k ∙ rw (eqb_ℤ_refl mq) refl)

    pub joined-Linked :
        (history : List Text) (k : ℕ)
        → Linked
            (take n users ++ newcomer mq name pid ∷ [])
            joined
            (with_more joined (replay mq history k) inbox)
    joined-Linked history k = record {
      home =
          Home-append joined (take n users) (newcomer mq name pid)
            (Home-fresh opened mq pid users n fresh before.home) (rw (eqb_ℤ_refl mq) refl);
      apart = λ p. elim (Bool-cases (eqb_ℤ pid p)) [
        | inl this ↦
            let one = rw this at (members-joined p) in
            let nobody = subst (λ q. members q (take n users) ≡ 0) (eqb_ℤ_eq pid p this) outside in
            omega arith
        | inr other ↦
            let one = rw other at (members-joined p) in let few = before.apart p in omega arith
      ];
      empty = λ p e. elim (Bool-cases (eqb_ℤ pid p)) [
        | inl this ↦ let one = rw this at (members-joined p) in absurd (omega arith)
        | inr other ↦
            let one = rw other at (members-joined p) in
            put-welcome history k p ∙ rw other (append-nil (inbox p) ∙ before.empty p (omega arith))
      ];
    }

    pub joined-Boxed :
        (history : List Text) (k : ℕ) (events : List Text)
        → take k history ≡ events
        → Boxed (take n users) inbox events
        → Boxed
            (take n users ++ newcomer mq name pid ∷ [])
            (with_more joined (replay mq history k) inbox)
            events
    joined-Boxed history k events is boxed = record {
      full = λ p e. elim (Bool-cases (eqb_ℤ pid p)) [
        | inl this ↦
            let nothing =
              before.empty p
                (subst (λ q. members q (take n users) ≡ 0) (eqb_ℤ_eq pid p this) outside) in
            put-welcome history k p ∙ rw (this, nothing) is
        | inr other ↦
            let one = rw other at (members-joined p) in
            put-welcome history k p ∙ rw other (append-nil (inbox p) ∙ boxed.full p (omega arith))
      ];
    }
