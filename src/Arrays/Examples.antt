-- ===== src/Arrays/Examples.antt =====
-- 02_arrays: tests, and the theorems at concrete inputs.
use eltex_homeworks.Prelude.{◌+◌, ◌*◌, ◌≡◌, refl, [], ◌∷◌, arith}
use eltex_homeworks.Prelude.Int.{◌+ℤ◌}
use eltex_homeworks.Arrays.Programs.{cell, fill, blocked, put, walk, spiral}
use eltex_homeworks.Arrays.Cells.{cell-fill}

spiral_three : spiral 3 ≡ (1 ∷ 2 ∷ 3 ∷ []) ∷ (8 ∷ 9 ∷ 4 ∷ []) ∷ (7 ∷ 6 ∷ 5 ∷ []) ∷ []
unfolding spiral walk blocked put ◌+ℤ◌
spiral_three = refl

cell-fill_example : cell (fill 4) 2 1 ≡ 1 + 2 * 4 + 1
cell-fill_example = cell-fill 4 2 1 (omega arith) (omega arith)
