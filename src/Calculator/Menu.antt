-- ===== src/Calculator/Menu.antt =====
-- 07_static_libs/main.c and operations/*.c. A result that does not fit into an int is `none`: the C program
-- has no defined behaviour then.
use eltex_homeworks.Prelude.{
  ℕ, zero, suc, ◌-◌, ◌/◌, ◌^◌, Bool, ◌&&◌, Option, none, some, [], ◌∷◌, ◌++◌, if◌then◌else◌,
}
use eltex_homeworks.Prelude.Int.{ℤ, pos, negsuc, ◌+ℤ◌, ◌-ℤ◌, ◌*ℤ◌, leb_ℤ, eqb_ℤ}
use eltex_homeworks.Libc.Text.{Text, codes}
use eltex_homeworks.Libc.Decimal.{print_int}

-- The range of int.
unfoldable pub in_range : ℤ → Bool
in_range z = leb_ℤ (negsuc (2 ^ 31 - 1)) z && leb_ℤ z (pos (2 ^ 31 - 1))

unfoldable pub checked : ℤ → Option ℤ
checked z = if in_range z then some z else none

unfoldable pub add : ℤ → ℤ → Option ℤ
add a b = checked (a +ℤ b)

unfoldable pub sub : ℤ → ℤ → Option ℤ
sub a b = checked (a -ℤ b)

unfoldable pub mul : ℤ → ℤ → Option ℤ
mul a b = checked (a *ℤ b)

abbrev pub minus : ℕ → ℤ
minus zero = pos 0
minus (suc n) = negsuc n

-- The quotient is cut off towards zero.
abbrev pub quotient : ℤ → ℤ → ℤ
quotient (pos a) (pos b) = pos (a / b)
quotient (pos a) (negsuc b) = minus (a / suc b)
quotient (negsuc a) (pos b) = minus (suc a / b)
quotient (negsuc a) (negsuc b) = pos (suc a / suc b)

unfoldable pub divide : ℤ → ℤ → Option ℤ
divide a b = if eqb_ℤ b (pos 0) then none else checked (quotient a b)

-- printf("Result: %d\n", ...)
unfoldable pub show_result : Option ℤ → Option Text
show_result none = none
show_result (some z) = some (codes "Result: " ++ print_int z ++ 10 ∷ [])

unfoldable pub op_add : ℤ → ℤ → Option Text
op_add a b = show_result (checked (a +ℤ b))

unfoldable pub op_sub : ℤ → ℤ → Option Text
op_sub a b = show_result (sub a b)

unfoldable pub op_mul : ℤ → ℤ → Option Text
op_mul a b = show_result (mul a b)

unfoldable pub op_div : ℤ → ℤ → Option Text
op_div a b =
    if eqb_ℤ b (pos 0) then some (codes "Error: Division by zero!\n") else show_result (divide a b)

-- The answer to a choice, with the two numbers that are then typed; the outer `none` is the end of the
-- program, the inner one a result that is not defined.
unfoldable pub choose : ℤ → ℤ → ℤ → Option (Option Text)
choose choice a b =
    if eqb_ℤ choice (pos 1)
    then some (op_add a b)
    else if eqb_ℤ choice (pos 2)
    then some (op_sub a b)
    else if eqb_ℤ choice (pos 3)
    then some (op_mul a b)
    else if eqb_ℤ choice (pos 4)
    then some (op_div a b)
    else if eqb_ℤ choice (pos 5)
    then none
    else some (some (codes "Wrong input!\n"))
