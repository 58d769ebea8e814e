-- ===== src/MqueueChat/Queues.antt =====
-- 13_mqueue/chat/server.c: descriptors that lead to the queues of the users, and what is put into these.
use eltex_homeworks.Prelude.{
  ℕ, zero, suc, ◌+◌, ◌≡◌, refl, subst, ap, ◌∙◌, true, false, inl, inr, Option, none, some, List, [],
  ◌∷◌, ◌++◌, arith, if◌then◌else◌, take, replicate, Bool-cases, Option-cases,
}
use eltex_homeworks.Prelude.Int.{ℤ, eqb_ℤ, eqb_ℤ_eq, eqb_ℤ_refl}
use eltex_homeworks.Prelude.Slots.{remove_at}
use eltex_homeworks.Libc.Text.{Text}
use eltex_homeworks.MqueueChat.Server.{User, Sent, find_user, broadcast, replay}
use eltex_homeworks.MqueueChat.Delivery.{places}
use eltex_homeworks.MqueueChat.Room.{members, forget, leads, put}

-- Every user's descriptor leads to the queue with the name of its pid.
unfoldable pub Home : (ℤ → Option ℤ) → List User → Type 0
Home opened [] = Unit {0}
Home opened (u ∷ users) = (opened u.mq ≡ some u.pid) × Home opened users

pub members-append : (p : ℤ) (a b : List User) → members p (a ++ b) ≡ members p a + members p b
unfolding members
members-append p [] b = omega arith
members-append p (u ∷ a) b = ground (arith, members-append p a b)

-- The user that find_user finds has the pid.
pub members-found :
    (pid p : ℤ) (us : List User) (n i : ℕ)
    → find_user us n pid ≡ some i
    → members p (remove_at (take n us) i) + (if eqb_ℤ pid p then 1 else 0) ≡ members p (take n us)
unfolding find_user members
members-found pid p us zero i e = cc
members-found pid p [] (suc n) i e = cc
members-found pid p (u ∷ us) (suc n) i e = elim (Bool-cases (eqb_ℤ u.pid pid)) [
  | inl this ↦
      let same = eqb_ℤ_eq u.pid pid this in let first : i ≡ 0 = ground arith in ground arith
  | inr other ↦ elim (Option-cases (find_user us n pid)) [
    | inl gone ↦ ground arith
    | inr (j, found) ↦
        let rest = members-found pid p us n j found in
        let later : i ≡ suc j = ground arith in ground arith
  ]
]

pub Home-append :
    (opened : ℤ → Option ℤ) (a : List User) (u : User)
    → Home opened a
    → opened u.mq ≡ some u.pid
    → Home opened (a ++ u ∷ [])
unfolding Home
Home-append opened [] u h e = (e, tt)
Home-append opened (v ∷ a) u (first, h) e = (first, Home-append opened a u h e)

pub Home-remove_at :
    (opened : ℤ → Option ℤ) (us : List User) (i : ℕ) → Home opened us → Home opened (remove_at us i)
unfolding Home
Home-remove_at opened [] i h = h
Home-remove_at opened (u ∷ us) zero (first, h) = h
Home-remove_at opened (u ∷ us) (suc i) (first, h) = (first, Home-remove_at opened us i h)

eqb_ℤ_no : (a b : ℤ) → eqb_ℤ a b ≡ false → eqb_ℤ b a ≡ false
eqb_ℤ_no a b differ = elim (Bool-cases (eqb_ℤ b a)) [
  | inl equal ↦
      let same = subst (λ c. eqb_ℤ c b ≡ true) (eqb_ℤ_eq b a equal) (eqb_ℤ_refl b) in absurd cc
  | inr other ↦ other
]

-- A descriptor that nobody has is opened.
pub Home-fresh :
    (opened : ℤ → Option ℤ) (mq pid : ℤ) (us : List User) (n : ℕ)
    → places mq us n ≡ 0
    → Home opened (take n us)
    → Home (λ m. if eqb_ℤ mq m then some pid else opened m) (take n us)
unfolding Home places
Home-fresh opened mq pid us zero none_yet h = tt
Home-fresh opened mq pid [] (suc n) none_yet h = tt
Home-fresh opened mq pid (u ∷ us) (suc n) none_yet (first, h) = elim (Bool-cases (eqb_ℤ u.mq mq)) [
  | inl taken ↦ absurd (ground arith)
  | inr other ↦
      let free : places mq us n ≡ 0 = ground arith in
      let apart = eqb_ℤ_no u.mq mq other in (rw apart first, Home-fresh opened mq pid us n free h)
]

-- A name that no user has is unlinked.
pub Home-forget :
    (opened : ℤ → Option ℤ) (pid : ℤ) (us : List User)
    → members pid us ≡ 0
    → Home opened us
    → Home (λ m. forget pid (opened m)) us
unfolding Home members forget
Home-forget opened pid [] none_left h = tt
Home-forget opened pid (u ∷ us) none_left (first, h) = elim (Bool-cases (eqb_ℤ u.pid pid)) [
  | inl left ↦ absurd (ground arith)
  | inr other ↦
      let rest : members pid us ≡ 0 = ground arith in
      let apart = eqb_ℤ_no u.pid pid other in
      (
        ap (forget pid) first ∙ ap (λ b. if b then none else some u.pid) apart,
        Home-forget opened pid us rest h,
      )
]

pub put-append :
    (opened : ℤ → Option ℤ) (p : ℤ) (a b : Sent)
    → put opened p (a ++ b) ≡ put opened p a ++ put opened p b
unfolding put
put-append opened p [] b = refl
put-append opened p ((mq, t) ∷ a) b = ground (arith, put-append opened p a b)

pub put-broadcast :
    (opened : ℤ → Option ℤ) (p : ℤ) (us : List User) (n : ℕ) (t : Text)
    → Home opened (take n us)
    → put opened p (broadcast us n t) ≡ replicate (members p (take n us)) t
unfolding put broadcast members Home
put-broadcast opened p us zero t h = refl
put-broadcast opened p [] (suc n) t h = refl
put-broadcast opened p (u ∷ us) (suc n) t (first, h) =
    let rest = put-broadcast opened p us n t h in rw (first, rest) (ground arith)

pub put-replay :
    (opened : ℤ → Option ℤ) (p mq : ℤ) (history : List Text) (n : ℕ)
    → put opened p (replay mq history n) ≡ (if leads (opened mq) p then take n history else [])
unfolding put replay
put-replay opened p mq history zero = ground arith
put-replay opened p mq [] (suc n) = ground arith
put-replay opened p mq (h ∷ history) (suc n) = ground (arith, put-replay opened p mq history n)
