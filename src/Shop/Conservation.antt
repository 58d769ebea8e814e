-- ===== src/Shop/Conservation.antt =====
-- 11_threads/p5.c: no goods appear or get lost, and the need is met.
use eltex_homeworks.Prelude.{
  ℕ, zero, suc, ◌+◌, ◌-◌, ◌≤◌, ◌<◌, ◌≡◌, refl, sym, subst, ◌∙◌, inl, inr, true, List, [], ◌∷◌,
  arith, ltb, ◌==◌, if◌then◌else◌, length, get_or, set, length-set, Bool-cases,
}
use eltex_homeworks.Shop.Market.{
  rooms_count, Market, room_of, take_goods, consumer, delivery, bring_goods, producer, Turn,
  consumes, produces, stay, turn, run,
}

abbrev pub total : List ℕ → ℕ
total [] = 0
total (x ∷ xs) = x + total xs

total-set :
    (xs : List ℕ) (i v : ℕ) → i < length xs → total (set xs i v) + get_or xs i 0 ≡ total xs + v
total-set [] i v h = absurd (omega arith)
total-set (x ∷ xs) zero v h = omega arith
total-set (x ∷ xs) (suc i) v h = omega (arith, total-set xs i v (omega arith))

room-bound : (r : ℕ) → room_of r < rooms_count
room-bound r = omega arith

-- What a turn brings into the shop.
unfoldable pub brought : Turn → Market → ℕ
brought (consumes r) s = 0
brought (produces r q) s = if s.consumer_need == 0 then 0 else delivery q

unfoldable pub all_brought : List Turn → Market → ℕ
all_brought [] s = 0
all_brought (t ∷ ts) s = brought t s + all_brought ts (turn t s)

-- The goods against the need.
abbrev Balances : ℕ → Market → Market → Type 0
Balances b s t =
    (total t.shop_rooms + s.consumer_need ≡ total s.shop_rooms + t.consumer_need + b)
    × (t.consumer_need ≤ s.consumer_need)
    × (length t.shop_rooms ≡ length s.shop_rooms)

taken-Balances :
    (room taken : ℕ) (s : Market)
    → room < length s.shop_rooms
    → taken ≤ get_or s.shop_rooms room 0
    → taken ≤ s.consumer_need
    → Balances 0 s (record {
      shop_rooms = set s.shop_rooms room (get_or s.shop_rooms room 0 - taken);
      consumer_need = s.consumer_need - taken;
    })
taken-Balances room taken s h le le' = (
  omega (arith, total-set s.shop_rooms room (get_or s.shop_rooms room 0 - taken) h, le, le'),
  omega arith,
  length-set s.shop_rooms room _,
)

take_goods-Balances :
    (room : ℕ) (s : Market) → room < length s.shop_rooms → Balances 0 s (take_goods room s)
unfolding take_goods
take_goods-Balances room s h = elim (Bool-cases (ltb 0 (get_or s.shop_rooms room 0))) [
  | inl full ↦ elim (Bool-cases (ltb s.consumer_need (get_or s.shop_rooms room 0))) [
    | inl plenty ↦
        rw (full, plenty) (taken-Balances room s.consumer_need s h (ground arith) (omega arith))
    | inr scarce ↦
        rw (full, scarce)
          (taken-Balances room (get_or s.shop_rooms room 0) s h (omega arith) (ground arith))
  ]
  | inr empty ↦ rw empty (omega arith, omega arith, refl)
]

bring_goods-Balances :
    (room add : ℕ) (s : Market)
    → room < length s.shop_rooms
    → Balances add s (bring_goods room add s)
unfolding bring_goods
bring_goods-Balances room add s h = (
  omega (arith, total-set s.shop_rooms room (get_or s.shop_rooms room 0 + add) h),
  omega arith,
  length-set s.shop_rooms room _,
)

turn-Balances :
    (t : Turn) (s : Market)
    → length s.shop_rooms ≡ rooms_count
    → Balances (brought t s) s (turn t s)
unfolding turn stay consumer producer brought
turn-Balances (consumes r) s h = elim (Bool-cases (s.consumer_need == 0)) [
  | inl met ↦ rw met (omega arith, omega arith, refl)
  | inr open_need ↦
      rw open_need
        (take_goods-Balances (room_of r) s (subst (λ n. room_of r < n) (sym h) (room-bound r)))
]
turn-Balances (produces r q) s h = elim (Bool-cases (s.consumer_need == 0)) [
  | inl met ↦ rw met (omega arith, omega arith, refl)
  | inr open_need ↦ rw open_need (
      bring_goods-Balances (room_of r) (delivery q) s
        (subst (λ n. room_of r < n) (sym h) (room-bound r)))
]

-- Over any interleaving of the two threads, with any answers of rand: what is in the rooms at the end is
-- what was there, with what the producer brought, without what the consumer got of its need; and the need
-- never grows.
pub run-total :
    (ts : List Turn) (s : Market)
    → length s.shop_rooms ≡ rooms_count
    → (total (run ts s).shop_rooms + s.consumer_need
        ≡ total s.shop_rooms + (run ts s).consumer_need + all_brought ts s)
      × ((run ts s).consumer_need ≤ s.consumer_need)
unfolding run all_brought
run-total [] s h = (omega arith, omega arith)
run-total (t ∷ ts) s h =
    let (e, le, same) = turn-Balances t s h in
    let (e', le') = run-total ts (turn t s) (same ∙ h) in
    (omega (arith, e, e'), omega (arith, le, le'))

-- The consumer never finds its room empty.
unfoldable pub Lucky : List Turn → Market → Type 0
Lucky [] s = Unit {0}
Lucky (consumes r ∷ ts) s =
    (ltb 0 (get_or s.shop_rooms (room_of r) 0) ≡ true) × Lucky ts (turn (consumes r) s)
Lucky (produces r q ∷ ts) s = Lucky ts (turn (produces r q) s)

abbrev pub consumer_turns : List Turn → ℕ
consumer_turns [] = 0
consumer_turns (consumes r ∷ ts) = suc (consumer_turns ts)
consumer_turns (produces r q ∷ ts) = consumer_turns ts

take_goods-need :
    (room : ℕ) (s : Market)
    → ltb 0 (get_or s.shop_rooms room 0) ≡ true
    → (take_goods room s).consumer_need ≤ s.consumer_need - 1
unfolding take_goods
take_goods-need room s lucky = ground arith

consumes-need :
    (r : ℕ) (s : Market)
    → ltb 0 (get_or s.shop_rooms (room_of r) 0) ≡ true
    → (turn (consumes r) s).consumer_need ≤ s.consumer_need - 1
unfolding turn stay consumer
consumes-need r s lucky = elim (Bool-cases (s.consumer_need == 0)) [
  | inl met ↦ rw met (ground arith)
  | inr open_need ↦ rw open_need (take_goods-need (room_of r) s lucky)
]

produces-need : (r q : ℕ) (s : Market) → (turn (produces r q) s).consumer_need ≡ s.consumer_need
unfolding turn stay producer bring_goods
produces-need r q s = ground arith

-- Whatever the producer does in between, a consumer that always finds goods in its room has its need met
-- after at most as many turns as the need is large, so that both loops end.
pub run-met :
    (ts : List Turn) (s : Market)
    → Lucky ts s
    → s.consumer_need ≤ consumer_turns ts
    → (run ts s).consumer_need ≡ 0
unfolding run Lucky
run-met [] s lucky enough = omega arith
run-met (consumes r ∷ ts) s (here, lucky) enough =
    run-met ts (turn (consumes r) s) lucky (omega (arith, consumes-need r s here))
run-met (produces r q ∷ ts) s lucky enough =
    run-met ts (turn (produces r q) s) lucky (omega (arith, produces-need r q s))
