-- ===== src/MqueueChat/Members.antt =====
-- 13_mqueue/chat/server.c: the users of the chat, when one joins or leaves.
use eltex_homeworks.Prelude.{
  ℕ, suc, ◌+◌, ◌-◌, ◌≤◌, ◌<◌, ◌≡◌, refl, ap, ◌∙◌, Bool, true, false, Option, none, some, List, [],
  ◌∷◌, ◌++◌, zero, arith, if◌then◌else◌, length, take, set,
}
use eltex_homeworks.Prelude.Int.{ℤ, eqb_ℤ}
use eltex_homeworks.Prelude.Slots.{remove_at, take-close_gap, take-set}
use eltex_homeworks.Libc.Text.{Text}
use eltex_homeworks.MqueueChat.Server.{User, Server, find_user, publish, add_user, drop_user}
use eltex_homeworks.MqueueChat.Delivery.{add_to_history-users}
use eltex_homeworks.MqueueChat.Room.{present}

pub find_user-lt :
    (users : List User) (n : ℕ) (pid : ℤ) (i : ℕ) → find_user users n pid ≡ some i → i < n
unfolding find_user
find_user-lt users zero pid i h = cc
find_user-lt [] (suc n) pid i h = cc
find_user-lt (u ∷ users) (suc n) pid i h =
    first_or_later (λ j e. find_user-lt users n pid j e) (eqb_ℤ u.pid pid) (find_user users n pid)
      refl h
  where
    first_or_later :
        ((j : ℕ) → find_user users n pid ≡ some j → j < n)
        → (b : Bool) (o : Option ℕ) → find_user users n pid ≡ o
        → (if b then some 0 else elim o [ none ↦ none | some j ↦ some (suc j) ]) ≡ some i
        → i < suc n
    first_or_later below true o e k = ground arith
    first_or_later below false none e k = cc
    first_or_later below false (some j) e k = let lt = below j e in ground arith

abbrev pub newcomer : ℤ → Text → ℤ → User
newcomer mq name pid = record { name = take 19 name; mq = mq; pid = pid }

pub present-publish : (e : Text) (t : Server) → present (publish e t).1 ≡ present t
unfolding publish
present-publish e t = let (users, active) = add_to_history-users e t in rw (users, active) refl

pub present-add_user :
    (mq : ℤ) (name : Text) (pid : ℤ) (s : Server)
    → s.active_users < length s.users
    → present (add_user mq name pid s) ≡ present s ++ newcomer mq name pid ∷ []
unfolding add_user
present-add_user mq name pid s lt =
    ap (λ n. take n (set s.users s.active_users (newcomer mq name pid)))
      (let e : s.active_users + 1 ≡ suc s.active_users = omega arith in e)
    ∙ take-set s.active_users s.users (newcomer mq name pid) lt

pub present-drop_user :
    (i : ℕ) (s : Server)
    → i < s.active_users
    → s.active_users ≤ length s.users
    → present (drop_user i s) ≡ remove_at (present s) i
unfolding drop_user
present-drop_user i s lt fits =
    take-close_gap i (s.active_users - 1 - i) (s.active_users - 1) s.users (omega arith)
      (omega arith)
    ∙ ap (λ n. remove_at (take n s.users) i)
        (let e : suc (s.active_users - 1) ≡ s.active_users = omega arith in e)
