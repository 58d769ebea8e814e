-- ===== src/Counter/Sums.antt =====
-- Sums over the threads.
use eltex_homeworks.Prelude.{
  ℕ, zero, suc, ◌+◌, ◌*◌, ◌≤◌, ◌≡◌, subst, some, List, [], ◌∷◌, get_elem?, set, replicate, arith,
}
use eltex_homeworks.Counter.Threads.{Phase}

unfoldable pub sum_of : (Phase → ℕ) → List Phase → ℕ
sum_of f [] = 0
sum_of f (p ∷ ps) = f p + sum_of f ps

pub sum_of-replicate : (f : Phase → ℕ) (n : ℕ) (p : Phase) → sum_of f (replicate n p) ≡ n * f p
unfolding sum_of
sum_of-replicate f zero p = omega arith
sum_of-replicate f (suc n) p = grind (arith, sum_of-replicate f n p)

-- One thread moves.
pub sum_of-set :
    (f : Phase → ℕ) (ps : List Phase) (i : ℕ) (p q : Phase)
    → get_elem? ps i ≡ some p
    → sum_of f (set ps i q) + f p ≡ sum_of f ps + f q
unfolding sum_of
sum_of-set f [] i p q h = cc
sum_of-set f (x ∷ ps) zero p q h =
    let e : x ≡ p = cc in
    subst (λ y. f q + sum_of f ps + f y ≡ f x + sum_of f ps + f q) e (omega arith)
sum_of-set f (x ∷ ps) (suc i) p q h = omega (arith, sum_of-set f ps i p q h)

pub sum_of-elem :
    (f : Phase → ℕ) (ps : List Phase) (i : ℕ) (p : Phase)
    → get_elem? ps i ≡ some p
    → f p ≤ sum_of f ps
unfolding sum_of
sum_of-elem f [] i p h = cc
sum_of-elem f (x ∷ ps) zero p h =
    let e : x ≡ p = cc in subst (λ y. f y ≤ f x + sum_of f ps) e (omega arith)
sum_of-elem f (x ∷ ps) (suc i) p h = omega (arith, sum_of-elem f ps i p h)
