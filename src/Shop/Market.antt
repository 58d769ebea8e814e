-- ===== src/Shop/Market.antt =====
-- 11_threads/p5.c: the bodies of the loops of consumer and producer, which run under the mutex. What rand
-- answers is an argument. The rooms and the need are never negative.
use eltex_homeworks.Prelude.{
  ℕ, ◌+◌, ◌-◌, ◌%◌, Option, none, some, List, [], ◌∷◌, ltb, ◌==◌, if◌then◌else◌, get_or, set,
}

abbrev pub rooms_count : ℕ
rooms_count = 5

-- The globals.
pub record Market : Type 0 where
  pub shop_rooms : List ℕ
  pub consumer_need : ℕ

abbrev pub room_of : ℕ → ℕ
room_of r = r % rooms_count

-- Behind the test of the need: some goods are taken, or the room is found empty.
unfoldable pub take_goods : ℕ → Market → Market
take_goods room s =
    let goods = get_or s.shop_rooms room 0 in
    let taken = if ltb s.consumer_need goods then s.consumer_need else goods in
    if ltb 0 goods
    then record {
      shop_rooms = set s.shop_rooms room (goods - taken);
      consumer_need = s.consumer_need - taken;
    }
    else s

-- A round of consumer; `none` where the loop is left.
unfoldable pub consumer : ℕ → Market → Option Market
consumer r s = if s.consumer_need == 0 then none else some (take_goods (room_of r) s)

-- 10 + rand() % 30
abbrev pub delivery : ℕ → ℕ
delivery q = 10 + q % 30

unfoldable pub bring_goods : ℕ → ℕ → Market → Market
bring_goods room add s = record s {
  shop_rooms = set s.shop_rooms room (get_or s.shop_rooms room 0 + add);
}

-- A round of producer, likewise.
unfoldable pub producer : ℕ → ℕ → Market → Option Market
producer r q s =
    if s.consumer_need == 0 then none else some (bring_goods (room_of r) (delivery q) s)

-- The thread that takes the mutex next, with what rand answers it.
pub data Turn : Type 0 where
  consumes : ℕ → Turn
  produces : ℕ → ℕ → Turn

-- A thread that has left its loop does nothing more.
unfoldable pub stay : Market → Option Market → Market
stay s none = s
stay s (some t) = t

unfoldable pub turn : Turn → Market → Market
turn (consumes r) s = stay s (consumer r s)
turn (produces r q) s = stay s (producer r q s)

unfoldable pub run : List Turn → Market → Market
run [] s = s
run (t ∷ ts) s = run ts (turn t s)
