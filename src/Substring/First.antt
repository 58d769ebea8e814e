-- ===== src/Substring/First.antt =====
-- 03_pointers/p4.c: find_substring gives the first occurrence, if there is one.
use eltex_homeworks.Prelude.{
  ℕ, suc, ◌≤◌, ◌≡◌, ◌⊎◌, refl, sym, ap, subst, ◌∙◌, inl, inr, Option, none, some, [], ◌∷◌, ◌++◌,
  arith, ◌==◌, length, drop, Bool-cases,
}
use eltex_homeworks.Libc.Text.{Text}
use eltex_homeworks.Substring.Search.{walk, here_or, search_from, find_substring}

-- The text begins with `p`.
abbrev pub Begins : Text → Text → Type 0
Begins p s = (rest : Text) × (s ≡ p ++ rest)

walk-Begins : (s p : Text) → walk s p ≡ [] → Begins p s
unfolding walk
walk-Begins [] [] e = ([], refl)
walk-Begins [] (d ∷ p) e = cc
walk-Begins (c ∷ s) [] e = (c ∷ s, refl)
walk-Begins (c ∷ s) (d ∷ p) e = elim (Bool-cases (c == d)) [
  | inl same ↦ let (rest, e') = walk-Begins s p (ground arith) in (rest, ground arith)
  | inr other ↦ ground arith
]

walk-append : (p rest : Text) → walk (p ++ rest) p ≡ []
unfolding walk
walk-append [] [] = refl
walk-append [] (c ∷ rest) = refl
walk-append (d ∷ p) rest = ground (arith, walk-append p rest)

-- The result is an occurrence, and no occurrence begins earlier; or there is none.
abbrev pub IsFirst : Text → Text → Option Text → Type 0
IsFirst p str none = (before rest : Text) → str ≡ before ++ (p ++ rest) → ⊥
IsFirst p str (some t) =
    (before : Text) × (str ≡ before ++ t)
    × Begins p t
    × ((other rest : Text) → str ≡ other ++ (p ++ rest) → length before ≤ length other)

-- One character further on.
IsFirst-later :
    (p str : Text) (c : ℕ) (o : Option Text)
    → ((rest : Text) → c ∷ str ≡ p ++ rest → ⊥)
    → IsFirst p str o
    → IsFirst p (c ∷ str) o
IsFirst-later p str c none not_here first = go
  where
    go : (before rest : Text) → c ∷ str ≡ before ++ (p ++ rest) → ⊥
    go [] rest e = not_here rest e
    go (b ∷ before) rest e = first before rest (ap (drop 1) e)
IsFirst-later p str c (some t) not_here (before, e, b, earliest) = (c ∷ before, ap (◌∷◌ c) e, b, go)
  where
    go : (other rest : Text) → c ∷ str ≡ other ++ (p ++ rest) → suc (length before) ≤ length other
    go [] rest e' = absurd (not_here rest e')
    go (o ∷ other) rest e' = omega (arith, earliest other rest (ap (drop 1) e'))

search_from-here :
    (d c : ℕ) (p str : Text)
    → walk (c ∷ str) (d ∷ p) ≡ []
    → search_from (c ∷ str) (d ∷ p) ≡ some (c ∷ str)
unfolding search_from here_or
search_from-here d c p str e = rw e refl

search_from-later :
    (d c x : ℕ) (p str xs : Text)
    → walk (c ∷ str) (d ∷ p) ≡ x ∷ xs
    → search_from (c ∷ str) (d ∷ p) ≡ search_from str (d ∷ p)
unfolding search_from here_or
search_from-later d c x p str xs e = rw e refl

List-cases : (xs : Text) → (xs ≡ []) ⊎ ((x : ℕ) × (ys : Text) × (xs ≡ x ∷ ys))
List-cases [] = inl refl
List-cases (x ∷ xs) = inr (x, xs, refl)

search_from-IsFirst : (d : ℕ) (p str : Text) → IsFirst (d ∷ p) str (search_from str (d ∷ p))
search_from-IsFirst d p [] = unfold search_from in nowhere
  where
    nowhere : (before rest : Text) → [] ≡ before ++ (d ∷ (p ++ rest)) → ⊥
    nowhere [] rest e = cc
    nowhere (b ∷ before) rest e = cc
search_from-IsFirst d p (c ∷ str) = elim (List-cases (walk (c ∷ str) (d ∷ p))) [
  | inl found ↦
      subst (IsFirst (d ∷ p) (c ∷ str)) (sym (search_from-here d c p str found))
        ([], refl, walk-Begins (c ∷ str) (d ∷ p) found, λ other rest e. omega arith)
  | inr (x, xs, differs) ↦
      subst (IsFirst (d ∷ p) (c ∷ str)) (sym (search_from-later d c x p str xs differs)) (
        IsFirst-later (d ∷ p) str c (search_from str (d ∷ p)) (absent x xs differs)
          (search_from-IsFirst d p str))
]
  where
    absent :
        (x : ℕ) (xs : Text)
        → walk (c ∷ str) (d ∷ p) ≡ x ∷ xs
        → (rest : Text) → c ∷ str ≡ (d ∷ p) ++ rest
        → ⊥
    absent x xs differs rest e =
        let walked : walk (c ∷ str) (d ∷ p) ≡ [] =
          ap (λ s. walk s (d ∷ p)) e ∙ walk-append (d ∷ p) rest in
        cc

-- find_substring gives the place of the first occurrence: the text from there on begins with the
-- substring, and no occurrence begins earlier. It gives NULL only if the substring occurs nowhere.
pub find_substring-IsFirst : (str p : Text) → IsFirst p str (find_substring str p)
unfolding find_substring
find_substring-IsFirst str [] = ([], refl, (str, refl), λ other rest e. omega arith)
find_substring-IsFirst str (d ∷ p) = search_from-IsFirst d p str
