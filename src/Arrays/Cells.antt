-- ===== src/Arrays/Cells.antt =====
-- 02_arrays/p1.c to p3.c: what stands where.
use eltex_homeworks.Prelude.{
  ℕ, zero, suc, ◌+◌, ◌-◌, ◌*◌, ◌<◌, ◌≡◌, ap, ◌∙◌, List, arith, ltb, if◌then◌else◌, get_or,
}
use eltex_homeworks.Prelude.Int.{ℤ, pos}
use eltex_homeworks.Arrays.Programs.{
  cell, fill_row, fill_rows, fill, print_down, triangle_row, triangle_rows, triangle,
}

get_or-fill_row : (n cols j : ℕ) → j < cols → get_or (fill_row n cols) j 0 ≡ n + j
unfolding fill_row
get_or-fill_row n zero j h = absurd (omega arith)
get_or-fill_row n (suc cols) zero h = omega arith
get_or-fill_row n (suc cols) (suc j) h = get_or-fill_row (n + 1) cols j (omega arith) ∙ omega arith

cell-fill_rows :
    (n rows cols i j : ℕ)
    → i < rows
    → j < cols
    → cell (fill_rows n rows cols) i j ≡ n + i * cols + j
unfolding fill_rows
cell-fill_rows n zero cols i j h k = absurd (omega arith)
cell-fill_rows n (suc rows) cols zero j h k = get_or-fill_row n cols j k ∙ omega arith
cell-fill_rows n (suc rows) cols (suc i) j h k =
    cell-fill_rows (n + cols) rows cols i j (omega arith) k ∙ omega arith

-- The counting loops of p1.c number the places of the matrix row by row from 1 on.
pub cell-fill : (size i j : ℕ) → i < size → j < size → cell (fill size) i j ≡ 1 + i * size + j
unfolding fill
cell-fill size i j h k = cell-fill_rows 1 size size i j h k

-- p2.c prints at place `i` the element at place size - 1 - i.
get_or-print_down :
    (array : List ℤ) (size i : ℕ)
    → i < size
    → get_or (print_down array size) i (pos 0) ≡ get_or array (size - 1 - i) (pos 0)
unfolding print_down
get_or-print_down array zero i h = absurd (omega arith)
get_or-print_down array (suc size) zero h = ap (λ k. get_or array k (pos 0)) (omega arith)
get_or-print_down array (suc size) (suc i) h =
    get_or-print_down array size i (omega arith) ∙ ap (λ k. get_or array k (pos 0)) (omega arith)

get_or-triangle_row :
    (size i j n k : ℕ)
    → k < n
    → get_or (triangle_row size i j n) k 0 ≡ (if ltb (j + k) (size - i - 1) then 0 else 1)
unfolding triangle_row
get_or-triangle_row size i j zero k h = absurd (omega arith)
get_or-triangle_row size i j (suc n) zero h =
    ap (λ m. if ltb m (size - i - 1) then 0 else 1) (omega arith)
get_or-triangle_row size i j (suc n) (suc k) h =
    get_or-triangle_row size i (j + 1) n k (omega arith)
    ∙ ap (λ m. if ltb m (size - i - 1) then 0 else 1) (omega arith)

cell-triangle_rows :
    (size i n k j : ℕ)
    → k < n
    → j < size
    → cell (triangle_rows size i n) k j ≡ (if ltb j (size - (i + k) - 1) then 0 else 1)
unfolding triangle_rows
cell-triangle_rows size i zero k j h l = absurd (omega arith)
cell-triangle_rows size i (suc n) zero j h l = get_or-triangle_row size i 0 size j l ∙ ground arith
cell-triangle_rows size i (suc n) (suc k) j h l =
    cell-triangle_rows size (i + 1) n k j (omega arith) l
    ∙ ap (λ m. if ltb j (size - m - 1) then 0 else 1) (omega arith)

-- p3.c fills the triangle below and on the second diagonal with ones, and the rest with zeros.
cell-triangle :
    (size i j : ℕ)
    → i < size
    → j < size
    → cell (triangle size) i j ≡ (if ltb (i + j + 1) size then 0 else 1)
unfolding triangle
cell-triangle size i j h k = cell-triangle_rows size 0 size i j h k ∙ ground arith
