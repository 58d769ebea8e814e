-- ===== src/Prelude/Slots.antt =====
-- Arrays of which the first entries are in use, with the loop that closes a gap. An access out of bounds
-- leaves an array of which nothing is known any more, []: that an array keeps its length says that no
-- access was out of bounds.
use eltex_homeworks.Prelude.{
  ℕ, zero, suc, ◌+◌, ◌≤◌, ◌<◌, ◌≡◌, refl, sym, subst, ap, ◌∙◌, true, ltb, if◌then◌else◌, none, some,
  List, [], ◌∷◌, ◌++◌, map, arith, length, get_elem?, set, take, length-set,
}

module _ {ℓ} {A : Type ℓ} where
  -- for (j = idx; j < idx + n; ++j) xs[j] = xs[j + 1];
  unfoldable pub move_down : ℕ → List A → List A
  move_down j xs = elim (get_elem? xs (suc j)) [ none ↦ [] | some v ↦ set xs j v ]

  unfoldable pub close_gap : ℕ → ℕ → List A → List A
  close_gap zero j xs = xs
  close_gap (suc n) j xs = close_gap n (suc j) (move_down j xs)

  abbrev pub remove_at : List A → ℕ → List A
  remove_at [] i = []
  remove_at (x ∷ xs) zero = xs
  remove_at (x ∷ xs) (suc i) = x ∷ remove_at xs i

  -- xs[i] = v;
  unfoldable pub store : List A → ℕ → A → List A
  store xs i v = if ltb i (length xs) then set xs i v else []

  pub store-set : (xs : List A) (i : ℕ) (v : A) → i < length xs → store xs i v ≡ set xs i v
  unfolding store
  store-set xs i v h = let inside : ltb i (length xs) ≡ true = ground arith in rw inside refl

  get_elem?-some : (xs : List A) (i : ℕ) → i < length xs → (v : A) × (get_elem? xs i ≡ some v)
  get_elem?-some [] i h = absurd (omega arith)
  get_elem?-some (x ∷ xs) zero h = (x, refl)
  get_elem?-some (x ∷ xs) (suc i) h = get_elem?-some xs i (omega arith)

  move_down-set :
      (j : ℕ) (xs : List A) (v : A) → get_elem? xs (suc j) ≡ some v → move_down j xs ≡ set xs j v
  unfolding move_down
  move_down-set j xs v e = ap (λ o. elim o [ none ↦ [] | some w ↦ set xs j w ]) e

  pub length-move_down :
      (j : ℕ) (xs : List A) → suc j < length xs → length (move_down j xs) ≡ length xs
  length-move_down j xs h =
      let (v, e) = get_elem?-some xs (suc j) h in
      ap length (move_down-set j xs v e) ∙ length-set xs j v

  pub length-close_gap :
      (n j : ℕ) (xs : List A) → j + n < length xs → length (close_gap n j xs) ≡ length xs
  unfolding close_gap
  length-close_gap zero j xs h = refl
  length-close_gap (suc n) j xs h =
      let same = length-move_down j xs (omega arith) in
      length-close_gap n (suc j) (move_down j xs) (omega (arith, same)) ∙ same

  move_down-cons :
      (j : ℕ) (x : A) (xs : List A)
      → suc j < length xs
      → move_down (suc j) (x ∷ xs) ≡ x ∷ move_down j xs
  move_down-cons j x xs h =
      let (v, e) = get_elem?-some xs (suc j) h in
      move_down-set (suc j) (x ∷ xs) v e ∙ ap (◌∷◌ x) (sym (move_down-set j xs v e))

  close_gap-cons :
      (n j : ℕ) (x : A) (xs : List A)
      → j + n < length xs
      → close_gap n (suc j) (x ∷ xs) ≡ x ∷ close_gap n j xs
  unfolding close_gap
  close_gap-cons zero j x xs h = refl
  close_gap-cons (suc n) j x xs h =
      let same = length-move_down j xs (omega arith) in
      ap (close_gap n (suc (suc j))) (move_down-cons j x xs (omega arith))
      ∙ close_gap-cons n (suc j) x (move_down j xs) (omega (arith, same))

  take-close_gap_front :
      (n : ℕ) (x : A) (xs : List A) → n ≤ length xs → take n (close_gap n 0 (x ∷ xs)) ≡ take n xs
  unfolding close_gap move_down
  take-close_gap_front zero x xs h = refl
  take-close_gap_front (suc n) x [] h = absurd (omega arith)
  take-close_gap_front (suc n) x (y ∷ xs) h =
      ap (take (suc n)) (close_gap-cons n 0 y (y ∷ xs) (omega arith))
      ∙ ap (◌∷◌ y) (take-close_gap_front n y xs (omega arith))

  -- The entries in use, without the one at `i`.
  pub take-close_gap :
      (i n m : ℕ) (xs : List A)
      → i + n ≡ m
      → m < length xs
      → take m (close_gap n i xs) ≡ remove_at (take (suc m) xs) i
  take-close_gap i n m [] e h = absurd (omega arith)
  take-close_gap zero n m (x ∷ xs) e h =
      subst (λ k. take m (close_gap k 0 (x ∷ xs)) ≡ take m xs) (omega arith)
        (take-close_gap_front m x xs (omega arith))
  take-close_gap (suc i) n zero (x ∷ xs) e h = absurd (omega arith)
  take-close_gap (suc i) n (suc m) (x ∷ xs) e h =
      ap (take (suc m)) (close_gap-cons n i x xs (omega arith))
      ∙ ap (◌∷◌ x) (take-close_gap i n m xs (omega arith) (omega arith))

  -- One more entry in use.
  pub take-set :
      (n : ℕ) (xs : List A) (v : A)
      → n < length xs
      → take (suc n) (set xs n v) ≡ take n xs ++ v ∷ []
  take-set n [] v h = absurd (omega arith)
  take-set zero (x ∷ xs) v h = refl
  take-set (suc n) (x ∷ xs) v h = ap (◌∷◌ x) (take-set n xs v (omega arith))

  pub length-remove_at :
      (xs : List A) (i : ℕ) → i < length xs → suc (length (remove_at xs i)) ≡ length xs
  length-remove_at [] i h = absurd (omega arith)
  length-remove_at (x ∷ xs) zero h = refl
  length-remove_at (x ∷ xs) (suc i) h = ap suc (length-remove_at xs i (omega arith))

module _ {ℓ κ} {A : Type ℓ} {B : Type κ} (f : A → B) where
  pub map-remove_at : (xs : List A) (i : ℕ) → map f (remove_at xs i) ≡ remove_at (map f xs) i
  map-remove_at [] i = refl
  map-remove_at (x ∷ xs) zero = refl
  map-remove_at (x ∷ xs) (suc i) = ap (◌∷◌ (f x)) (map-remove_at xs i)

  pub map-snoc : (xs : List A) (x : A) → map f (xs ++ x ∷ []) ≡ map f xs ++ f x ∷ []
  map-snoc [] x = refl
  map-snoc (y ∷ xs) x = ap (◌∷◌ (f y)) (map-snoc xs x)
