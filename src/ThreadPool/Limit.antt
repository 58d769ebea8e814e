-- ===== src/ThreadPool/Limit.antt =====
-- 16_sockets/part2/pthread_pool_server/server.c: how many threads are at work at the same time.
use eltex_homeworks.Prelude.{
  ℕ, zero, suc, ◌≤◌, ◌<◌, ◌≡◌, refl, ap, Bool, true, false, ◌||◌, List, [], ◌∷◌, ◌==◌,
  if◌then◌else◌, arith, inl, inr, Bool-cases, length,
}
use eltex_homeworks.ThreadPool.Server.{max_threads, is_live, Pool, boot, Reach}
use eltex_homeworks.ThreadPool.Slots.{boot-IsSound, Reach-IsSound}

abbrev pub occurs : ℕ → List ℕ → Bool
occurs t [] = false
occurs t (x ∷ xs) = (t == x) || occurs t xs

abbrev pub AllDifferent : List ℕ → Type 0
AllDifferent [] = Unit {0}
AllDifferent (x ∷ xs) = (occurs x xs ≡ false) × AllDifferent xs

abbrev without : ℕ → List ℕ → List ℕ
without t [] = []
without t (x ∷ xs) = if x == t then without t xs else x ∷ without t xs

occurs-without_self : (t : ℕ) (xs : List ℕ) → occurs t (without t xs) ≡ false
occurs-without_self t [] = refl
occurs-without_self t (x ∷ xs) = ground (arith, occurs-without_self t xs)

occurs-without : (t u : ℕ) (xs : List ℕ) → occurs u (without t xs) ≡ true → occurs u xs ≡ true
occurs-without t u [] h = cc
occurs-without t u (x ∷ xs) h = ground (arith, occurs-without t u xs)

not_occurs-without : (t u : ℕ) (xs : List ℕ) → occurs u xs ≡ false → occurs u (without t xs) ≡ false
not_occurs-without t u xs h = elim (Bool-cases (occurs u (without t xs))) [
  | inl i ↦ let j = occurs-without t u xs i in cc
  | inr o ↦ o
]

AllDifferent-without : (t : ℕ) (xs : List ℕ) → AllDifferent xs → AllDifferent (without t xs)
AllDifferent-without t [] d = tt
AllDifferent-without t (x ∷ xs) (dx, d) = elim (Bool-cases (x == t)) [
  | inl same ↦ rw same (AllDifferent-without t xs d)
  | inr other ↦ rw other (not_occurs-without t x xs dx, AllDifferent-without t xs d)
]

without_other : (t : ℕ) (xs : List ℕ) → occurs t xs ≡ false → without t xs ≡ xs
without_other t [] h = refl
without_other t (x ∷ xs) h = ground (arith, without_other t xs)

length-without : (t : ℕ) (xs : List ℕ) → AllDifferent xs → length xs ≤ suc (length (without t xs))
length-without t [] d = omega arith
length-without t (x ∷ xs) (dx, d) =
    ground (arith, length-without t xs d, ap length (without_other x xs dx))

below :
    (n i t : ℕ) (thread : ℕ → ℕ) (xs : List ℕ)
    → i < suc n
    → thread i ≡ t
    → occurs t (without (thread n) xs) ≡ true
    → i < n
below n i t thread xs lt at h = elim (Bool-cases (i == n)) [
  | inl same ↦ let no_t = occurs-without_self t xs in ground (arith, at, h)
  | inr other ↦ ground arith
]

-- More than `n` different threads do not fit into `n` slots.
pigeonhole :
    (n : ℕ) (thread : ℕ → ℕ) (xs : List ℕ)
    → AllDifferent xs
    → ((t : ℕ) → occurs t xs ≡ true → (i : ℕ) × (i < n) × (thread i ≡ t))
    → length xs ≤ n
pigeonhole zero thread [] d place = omega arith
pigeonhole zero thread (x ∷ xs) d place =
    let (i, lt, _) = place x (ground arith) in absurd (omega arith)
pigeonhole (suc n) thread xs d place =
    let rest =
      pigeonhole n thread (without (thread n) xs) (AllDifferent-without (thread n) xs d) (λ t h.
        let (i, lt, at) = place t (occurs-without (thread n) t xs h) in
        (i, below n i t thread xs lt at h, at)) in
    omega (arith, rest, length-without (thread n) xs d)

-- Whatever happens, also when threads end before main marks their slots: at most five threads are at work
-- (serving a client, or behind it and not yet in their slot) at the same time.
pub Reach-limit :
    {s : Pool} (xs : List ℕ)
    → Reach boot s
    → AllDifferent xs
    → ((t : ℕ) → occurs t xs ≡ true → is_live (s.phase t) ≡ true)
    → length xs ≤ max_threads
Reach-limit {s} xs r d work =
    let v = Reach-IsSound boot-IsSound r in
    pigeonhole max_threads s.thread xs d (λ t h. v.placed t (work t h))
