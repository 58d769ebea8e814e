-- ===== src/Prelude/Memory.antt =====
-- Memory as the object at each address, with `none` where nothing is allocated, and chains of steps of
-- which one may use a NULL or dangling pointer.
use eltex_homeworks.Prelude.{ℕ, ◌≡◌, refl, Option, none, some, ◌==◌, if◌then◌else◌}

infixl 5 ◌>>=◌
abbrev pub ◌>>=◌ {ℓ κ} : {A : Type ℓ} {B : Type κ} → Option A → (A → Option B) → Option B
none >>= f = none
some a >>= f = f a

-- Inversion-free use of a step that succeeds.
pub >>=-some {ℓ κ} :
    {A : Type ℓ} {B : Type κ} (o : Option A) (a : A) (f : A → Option B)
    → o ≡ some a
    → (o >>= f) ≡ f a
>>=-some o a f e = rw e

module _ {ℓ} {A : Type ℓ} where
  unfoldable pub write : ℕ → A → (ℕ → Option A) → ℕ → Option A
  write a n h b = if b == a then some n else h b

  unfoldable pub free : ℕ → (ℕ → Option A) → ℕ → Option A
  free a h b = if b == a then none else h b

  -- p->field = ...; through a bad pointer it fails.
  unfoldable pub update : ℕ → (A → A) → (ℕ → Option A) → Option (ℕ → Option A)
  update a f h = elim (h a) [ none ↦ none | some n ↦ some (write a (f n) h) ]

  pub update_lem :
      (a : ℕ) (f : A → A) (h : ℕ → Option A) (n : A)
      → h a ≡ some n
      → update a f h ≡ some (write a (f n) h)
  unfolding update
  update_lem a f h n e = rw (e, update) refl
