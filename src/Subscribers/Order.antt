-- ===== src/Subscribers/Order.antt =====
-- 06_dynamic_memory/list.c without pointers: the list of subscribers in the order of their names.
use eltex_homeworks.Prelude.{
  ◌≡◌, refl, ap, true, false, Option, none, some, List, [], ◌∷◌, if◌then◌else◌, arith, inl, inr,
  Bool-cases,
}
use eltex_homeworks.Libc.Text.{Text, str_eq, str_lt, str_eq_refl}
use eltex_homeworks.Subscribers.Linked.{Abonent}

-- In front of the first name that is not smaller.
abbrev pub put : Abonent → List Abonent → List Abonent
put ab [] = ab ∷ []
put ab (e ∷ es) = if str_lt e.name ab.name then e ∷ put ab es else ab ∷ e ∷ es

-- The list without the first subscriber of the name.
abbrev pub remove : Text → List Abonent → List Abonent
remove name [] = []
remove name (e ∷ es) = if str_eq e.name name then es else e ∷ remove name es

-- The first subscriber of the name.
abbrev pub find : Text → List Abonent → Option Abonent
find name [] = none
find name (e ∷ es) = if str_eq e.name name then some e else find name es

-- No name of the list is smaller.
abbrev pub NotAbove : Text → List Abonent → Type 0
NotAbove name [] = Unit {0}
NotAbove name (e ∷ es) = (str_lt e.name name ≡ false) × NotAbove name es

abbrev pub IsSorted : List Abonent → Type 0
IsSorted [] = Unit {0}
IsSorted (e ∷ es) = NotAbove e.name es × IsSorted es

str_lt_irrefl : (a : Text) → str_lt a a ≡ false
unfolding str_lt
str_lt_irrefl [] = refl
str_lt_irrefl (x ∷ a) = ground (arith, str_lt_irrefl a)

pub str_lt_asymm : (a b : Text) → str_lt a b ≡ true → str_lt b a ≡ false
unfolding str_lt
str_lt_asymm [] [] h = cc
str_lt_asymm [] (y ∷ b) h = refl
str_lt_asymm (x ∷ a) [] h = cc
str_lt_asymm (x ∷ a) (y ∷ b) h = ground (arith, str_lt_asymm a b)

-- If b is not smaller than a, and c not smaller than b, then c is not smaller than a.
str_lt_trans_not : (a b c : Text) → str_lt b a ≡ false → str_lt c b ≡ false → str_lt c a ≡ false
unfolding str_lt
str_lt_trans_not [] b [] h k = refl
str_lt_trans_not [] b (z ∷ c) h k = refl
str_lt_trans_not (x ∷ a) [] c h k = cc
str_lt_trans_not (x ∷ a) (y ∷ b) [] h k = cc
str_lt_trans_not (x ∷ a) (y ∷ b) (z ∷ c) h k = ground (arith, str_lt_trans_not a b c)

NotAbove-put :
    (name : Text) (ab : Abonent) (es : List Abonent)
    → str_lt ab.name name ≡ false
    → NotAbove name es
    → NotAbove name (put ab es)
NotAbove-put name ab [] h k = (h, tt)
NotAbove-put name ab (e ∷ es) h (k, ks) = elim (Bool-cases (str_lt e.name ab.name)) [
  | inl less ↦ rw less (k, NotAbove-put name ab es h ks)
  | inr not_less ↦ rw not_less (h, (k, ks))
]

NotAbove-trans :
    (a b : Text) (es : List Abonent) → str_lt b a ≡ false → NotAbove b es → NotAbove a es
NotAbove-trans a b [] h k = tt
NotAbove-trans a b (e ∷ es) h (k, ks) =
    (str_lt_trans_not a b e.name h k, NotAbove-trans a b es h ks)

pub put-IsSorted : (ab : Abonent) (es : List Abonent) → IsSorted es → IsSorted (put ab es)
put-IsSorted ab [] s = (tt, tt)
put-IsSorted ab (e ∷ es) (k, s) = elim (Bool-cases (str_lt e.name ab.name)) [
  | inl less ↦
      rw less (NotAbove-put e.name ab es (str_lt_asymm e.name ab.name less) k, put-IsSorted ab es s)
  | inr not_less ↦ rw not_less ((not_less, NotAbove-trans ab.name e.name es not_less k), (k, s))
]

NotAbove-remove : (a name : Text) (es : List Abonent) → NotAbove a es → NotAbove a (remove name es)
NotAbove-remove a name [] h = tt
NotAbove-remove a name (e ∷ es) (h, hs) = elim (Bool-cases (str_eq e.name name)) [
  | inl same ↦ rw same hs
  | inr other ↦ rw other (h, NotAbove-remove a name es hs)
]

pub remove-IsSorted : (name : Text) (es : List Abonent) → IsSorted es → IsSorted (remove name es)
remove-IsSorted name [] s = tt
remove-IsSorted name (e ∷ es) (k, s) = elim (Bool-cases (str_eq e.name name)) [
  | inl same ↦ rw same s
  | inr other ↦ rw other (NotAbove-remove e.name name es k, remove-IsSorted name es s)
]

-- A smaller name is another name.
str_lt-ne : (a b : Text) → str_lt a b ≡ true → str_eq a b ≡ false
unfolding str_lt str_eq
str_lt-ne [] [] h = cc
str_lt-ne [] (y ∷ b) h = refl
str_lt-ne (x ∷ a) [] h = refl
str_lt-ne (x ∷ a) (y ∷ b) h = ground (arith, str_lt-ne a b)

pub find-put_self : (ab : Abonent) (es : List Abonent) → find ab.name (put ab es) ≡ some ab
find-put_self ab [] = rw (str_eq_refl ab.name) refl
find-put_self ab (e ∷ es) = elim (Bool-cases (str_lt e.name ab.name)) [
  | inl less ↦ rw (less, str_lt-ne e.name ab.name less) (find-put_self ab es)
  | inr not_less ↦ rw (not_less, str_eq_refl ab.name) refl
]

pub remove-put_self : (ab : Abonent) (es : List Abonent) → remove ab.name (put ab es) ≡ es
remove-put_self ab [] = rw (str_eq_refl ab.name) refl
remove-put_self ab (e ∷ es) = elim (Bool-cases (str_lt e.name ab.name)) [
  | inl less ↦ rw (less, str_lt-ne e.name ab.name less) (ap (◌∷◌ e) (remove-put_self ab es))
  | inr not_less ↦ rw (not_less, str_eq_refl ab.name) refl
]
