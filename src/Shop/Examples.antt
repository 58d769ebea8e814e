-- ===== src/Shop/Examples.antt =====
-- 11_threads/p5.c: tests, and the theorems at concrete inputs.
use eltex_homeworks.Prelude.{◌+◌, ◌≤◌, ◌≡◌, refl, List, [], ◌∷◌, arith}
use eltex_homeworks.Shop.Market.{
  Market, take_goods, consumer, bring_goods, producer, Turn, consumes, produces, stay, turn, run,
}
use eltex_homeworks.Shop.Conservation.{total, all_brought, run-total, Lucky, run-met}

abbrev morning : Market
morning = record { shop_rooms = 10 ∷ 20 ∷ 15 ∷ 12 ∷ 30 ∷ []; consumer_need = 3 }

abbrev turns : List Turn
turns = consumes 7 ∷ produces 3 44 ∷ consumes 4 ∷ consumes 0 ∷ []

three_taken : (run turns morning).shop_rooms ≡ 10 ∷ 20 ∷ 12 ∷ 12 ∷ 30 ∷ []
unfolding run turn stay consumer producer take_goods bring_goods
three_taken = refl

run-total_example :
    (total (run turns morning).shop_rooms + morning.consumer_need
      ≡ total morning.shop_rooms + (run turns morning).consumer_need + all_brought turns morning)
    × ((run turns morning).consumer_need ≤ morning.consumer_need)
run-total_example = run-total turns morning refl

turns-Lucky : Lucky turns morning
unfolding Lucky turn stay consumer producer take_goods bring_goods
turns-Lucky = (refl, (refl, (refl, tt)))

run-met_example : (run turns morning).consumer_need ≡ 0
run-met_example = run-met turns morning turns-Lucky (omega arith)
