-- ===== src/Counter/Rounds.antt =====
-- 11_threads/p3.c: a thread that goes through its loop without a break.
use eltex_homeworks.Prelude.{
  ℕ, zero, suc, ◌+◌, ◌≡◌, refl, subst, ap, sym, ◌∙◌, false, some, List, [], ◌∷◌, get_elem?, set,
  arith,
}
use eltex_homeworks.Counter.Threads.{
  Phase, waiting, locked, loaded, stored, Counting, lock, load, store, unlock, Reach, next,
}

set-set : (ps : List Phase) (i : ℕ) (p q : Phase) → set (set ps i p) i q ≡ set ps i q
set-set [] i p q = refl
set-set (x ∷ ps) zero p q = refl
set-set (x ∷ ps) (suc i) p q = ap (◌∷◌ x) (set-set ps i p q)

set_there :
    (ps : List Phase) (i : ℕ) (p q : Phase)
    → get_elem? ps i ≡ some p
    → get_elem? (set ps i q) i ≡ some q
set_there [] i p q h = cc
set_there (x ∷ ps) zero p q h = refl
set_there (x ∷ ps) (suc i) p q h = set_there ps i p q h

set_same : (ps : List Phase) (i : ℕ) (p : Phase) → get_elem? ps i ≡ some p → set ps i p ≡ ps
set_same [] i p h = refl
set_same (x ∷ ps) zero p h = let e : p ≡ x = cc in ap (λ y. y ∷ ps) e
set_same (x ∷ ps) (suc i) p h = ap (◌∷◌ x) (set_same ps i p h)

abbrev pub unlocked : List Phase → ℕ → Counting
unlocked ps n = record { threads = ps; mutex = false; shared_counter = n }

one_round :
    (ps : List Phase) (i k n : ℕ)
    → get_elem? ps i ≡ some (waiting (suc k))
    → Reach (unlocked ps n)
    → Reach (unlocked (set ps i (waiting k)) (n + 1))
one_round ps i k n h reached =
    let ps₁ = set ps i (locked k) in
    let at₁ = set_there ps i (waiting (suc k)) (locked k) h in
    let ps₂ = set ps₁ i (loaded k n) in
    let at₂ = set_there ps₁ i (locked k) (loaded k n) at₁ in
    let ps₃ = set ps₂ i (stored k) in
    let at₃ = set_there ps₂ i (loaded k n) (stored k) at₂ in
    subst (λ qs. Reach (unlocked qs (n + 1)))
      (set-set ps₂ i (stored k) (waiting k)
        ∙ set-set ps₁ i (loaded k n) (waiting k)
        ∙ set-set ps i (locked k) (waiting k))
      (next (next (next (next reached (lock i k h refl)) (load i k at₁)) (store i k n at₂))
        (unlock i k at₃))

-- Its whole loop.
pub all_rounds :
    (k : ℕ) (ps : List Phase) (i n : ℕ)
    → get_elem? ps i ≡ some (waiting k)
    → Reach (unlocked ps n)
    → Reach (unlocked (set ps i (waiting 0)) (n + k))
all_rounds zero ps i n h reached =
    subst (λ qs. Reach (unlocked qs (n + 0))) (sym (set_same ps i (waiting 0) h))
      (subst (λ m. Reach (unlocked ps m)) (omega arith) reached)
all_rounds (suc k) ps i n h reached =
    let rest =
      all_rounds k (set ps i (waiting k)) i (n + 1) (set_there ps i (waiting (suc k)) (waiting k) h)
        (one_round ps i k n h reached) in
    subst (λ qs. Reach (unlocked qs (n + suc k))) (set-set ps i (waiting k) (waiting 0))
      (subst (λ m. Reach (unlocked (set (set ps i (waiting k)) i (waiting 0)) m)) (omega arith)
        rest)
