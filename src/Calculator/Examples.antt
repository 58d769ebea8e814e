-- ===== src/Calculator/Examples.antt =====
-- 07_static_libs: tests.
use eltex_homeworks.Prelude.{◌≡◌, refl, true, some}
use eltex_homeworks.Prelude.Int.{pos, negsuc, ◌+ℤ◌}
use eltex_homeworks.Calculator.Menu.{in_range, checked, add, divide}

towards_zero : divide (negsuc 6) (pos 2) ≡ some (negsuc 2)
unfolding divide checked in_range
towards_zero = refl

seven_fits : in_range (pos 7) ≡ true
unfolding in_range
seven_fits = refl

seven_and_five : add (pos 7) (negsuc 4) ≡ some (pos 2)
unfolding add checked in_range ◌+ℤ◌
seven_and_five = refl
