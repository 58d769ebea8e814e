-- ===== src/Arrays/Programs.antt =====
-- 02_arrays/p1.c to p4.c: the arrays that they print, for a size that was read. malloc does not fail.
use eltex_homeworks.Prelude.{
  ℕ, zero, suc, ◌+◌, ◌-◌, ◌*◌, Bool, not, ◌||◌, List, [], ◌∷◌, ltb, ◌==◌, if◌then◌else◌, get_or,
  set, replicate,
}
use eltex_homeworks.Prelude.Int.{ℤ, pos, negsuc, pos_part, ◌+ℤ◌, ltb_ℤ, leb_ℤ}

abbrev pub Matrix : Type 0
Matrix = List (List ℕ)

abbrev pub cell : Matrix → ℕ → ℕ → ℕ
cell m i j = get_or (get_or m i []) j 0

-- p1.c: for (i) for (j) matrix[i][j] = n++;
unfoldable pub fill_row : ℕ → ℕ → List ℕ
fill_row n zero = []
fill_row n (suc cols) = n ∷ fill_row (n + 1) cols

unfoldable pub fill_rows : ℕ → ℕ → ℕ → Matrix
fill_rows n zero cols = []
fill_rows n (suc rows) cols = fill_row n cols ∷ fill_rows (n + cols) rows cols

unfoldable pub fill : ℕ → Matrix
fill size = fill_rows 1 size size

-- p2.c: the elements from the last index down, which are printed.
unfoldable pub print_down : List ℤ → ℕ → List ℤ
print_down array zero = []
print_down array (suc i) = get_or array i (pos 0) ∷ print_down array i

-- p3.c: row `i` from column `j` on, and the rows from `i` on.
unfoldable pub triangle_row : ℕ → ℕ → ℕ → ℕ → List ℕ
triangle_row size i j zero = []
triangle_row size i j (suc n) =
    (if ltb j (size - i - 1) then 0 else 1) ∷ triangle_row size i (j + 1) n

unfoldable pub triangle_rows : ℕ → ℕ → ℕ → Matrix
triangle_rows size i zero = []
triangle_rows size i (suc n) = triangle_row size i 0 size ∷ triangle_rows size (i + 1) n

unfoldable pub triangle : ℕ → Matrix
triangle size = triangle_rows size 0 size

-- p4.c: right, down, left, up.
pub data Dir : Type 0 where
  right : Dir
  down : Dir
  left : Dir
  up : Dir

abbrev pub turned : Dir → Dir
turned right = down
turned down = left
turned left = up
turned up = right

abbrev pub step : Dir → ℤ × ℤ → ℤ × ℤ
step right (x, y) = (x, y +ℤ pos 1)
step down (x, y) = (x +ℤ pos 1, y)
step left (x, y) = (x, y +ℤ negsuc 0)
step up (x, y) = (x +ℤ negsuc 0, y)

-- The test of the next place: out of the matrix, or filled.
unfoldable pub blocked : ℕ → Matrix → ℤ × ℤ → Bool
blocked size m (x, y) =
    ltb_ℤ x (pos 0)
    || leb_ℤ (pos size) x
    || ltb_ℤ y (pos 0)
    || leb_ℤ (pos size) y
    || not (cell m (pos_part x) (pos_part y) == 0)

unfoldable pub put : Matrix → ℤ × ℤ → ℕ → Matrix
put m (x, y) n = set m (pos_part x) (set (get_or m (pos_part x) []) (pos_part y) n)

-- `k` rounds of the loop that are left; `num` is the next number.
unfoldable pub walk : ℕ → ℕ → Dir → ℤ × ℤ → ℕ → Matrix → Matrix
walk size zero dir p num m = m
walk size (suc k) dir p num m =
    let m' = put m p num in
    let dir' = if blocked size m' (step dir p) then turned dir else dir in
    walk size k dir' (step dir' p) (num + 1) m'

unfoldable pub spiral : ℕ → Matrix
spiral size = walk size (size * size) right (pos 0, pos 0) 1 (replicate size (replicate size 0))
