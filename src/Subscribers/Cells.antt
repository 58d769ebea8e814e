-- ===== src/Subscribers/Cells.antt =====
-- 06_dynamic_memory/list.c: what a well-formed doubly linked list looks like in the memory.
use eltex_homeworks.Prelude.{
  ℕ, ◌≡◌, refl, ap, Bool, true, false, ◌||◌, Option, none, some, List, [], ◌∷◌, ◌++◌, ◌==◌,
  if◌then◌else◌, arith, inl, inr, Bool-cases,
}
use mathlib.Core.Option
use eltex_homeworks.Subscribers.Linked.{Abonent, ListNode, Heap, set_next, set_prev}

-- A node's address and its subscriber.
abbrev pub Cells : Type 0
Cells = List (ℕ × Abonent)

abbrev pub first : Cells → Option ℕ
first [] = none
first ((a, ab) ∷ cs) = some a

-- The last address, or `p` if there is none.
abbrev pub last : Option ℕ → Cells → Option ℕ
last p [] = p
last p ((a, ab) ∷ cs) = last (some a) cs

abbrev pub abonents : Cells → List Abonent
abonents [] = []
abonents ((a, ab) ∷ cs) = ab ∷ abonents cs

abbrev pub among : ℕ → Cells → Bool
among b [] = false
among b ((a, ab) ∷ cs) = (b == a) || among b cs

abbrev pub points : Option ℕ → ℕ → Bool
points none b = false
points (some a) b = b == a

-- The nodes have different addresses, none of which is in use outside (`p`).
abbrev pub Distinct : Cells → Type 0
Distinct [] = Unit {0}
Distinct ((a, ab) ∷ cs) = (among a cs ≡ false) × Distinct cs

-- The memory of the nodes and nothing else; `p` is the node in front of them.
unfoldable pub memory : Option ℕ → Cells → Heap
memory p [] b = none
memory p ((a, ab) ∷ cs) b =
    if b == a
    then some (record { abonent = ab; prev = p; next = first cs })
    else memory (some a) cs b

pub record Represents (h : Heap) (head : Option ℕ) (cs : Cells) : Type 0 where
  pub at_head : head ≡ first cs
  pub distinct : Distinct cs
  pub exact : (b : ℕ) → h b ≡ memory none cs b

-- Nothing lies at an address of no node.
pub memory-outside : (p : Option ℕ) (cs : Cells) (b : ℕ) → among b cs ≡ false → memory p cs b ≡ none
unfolding memory
memory-outside p [] b out = refl
memory-outside p ((a, ab) ∷ cs) b out = ground (arith, memory-outside (some a) cs b)

pub memory-inside :
    (p : Option ℕ) (cs : Cells) (b : ℕ)
    → among b cs ≡ true
    → (n : ListNode) × (memory p cs b ≡ some n)
unfolding memory
memory-inside p [] b i = cc
memory-inside p ((a, ab) ∷ cs) b i = elim (Bool-cases (b == a)) [
  | inl e ↦ (record { abonent = ab; prev = p; next = first cs }, rw e refl)
  | inr e ↦ let (n, en) = memory-inside (some a) cs b (ground arith) in (n, rw e en)
]

pub among-append : (b : ℕ) (xs ys : Cells) → among b (xs ++ ys) ≡ (among b xs || among b ys)
among-append b [] ys = refl
among-append b (x ∷ xs) ys = ground (arith, among-append b xs ys)

-- The node between two parts.
pub memory-at :
    (p : Option ℕ) (xs : Cells) (c : ℕ) (e : Abonent) (ys : Cells)
    → Distinct (xs ++ (c, e) ∷ ys)
    → memory p (xs ++ (c, e) ∷ ys) c
      ≡ some (record { abonent = e; prev = last p xs; next = first ys })
unfolding memory
memory-at p [] c e ys d = ground arith
memory-at p ((x, f) ∷ xs) c e ys (dx, d) =
    ground (arith, among-append x xs ((c, e) ∷ ys), memory-at (some x) xs c e ys d)

abbrev pub Outside : Option ℕ → Cells → Type 0
Outside none cs = Unit {0}
Outside (some q) cs = among q cs ≡ false

points-last :
    (x y : ℕ) (xs : Cells)
    → (x == y) ≡ false
    → among x xs ≡ false
    → points (last (some y) xs) x ≡ false
points-last x y [] ne out = ne
points-last x y ((z, g) ∷ xs) ne out = points-last x z xs (ground arith) (ground arith)

among-append_left : (b : ℕ) (xs ys : Cells) → among b (xs ++ ys) ≡ false → among b xs ≡ false
among-append_left b xs ys h = ground (arith, among-append b xs ys)

-- A new node in front of the node at `c`.
pub memory-insert :
    (p : Option ℕ) (xs : Cells) (c : ℕ) (e : Abonent) (ys : Cells) (a : ℕ) (ab : Abonent) (b : ℕ)
    → Distinct (xs ++ (c, e) ∷ ys)
    → among a (xs ++ (c, e) ∷ ys) ≡ false
    → Outside p (xs ++ (c, e) ∷ ys)
    → memory p (xs ++ (a, ab) ∷ (c, e) ∷ ys) b ≡ (
        if b == c
        then some (record { abonent = e; prev = some a; next = first ys })
        else if b == a
        then some (record { abonent = ab; prev = last p xs; next = some c })
        else if points (last p xs) b
        then Option.map (set_next (some a)) (memory p (xs ++ (c, e) ∷ ys) b)
        else memory p (xs ++ (c, e) ∷ ys) b)
unfolding memory
memory-insert none [] c e ys a ab b d out apart = ground arith
memory-insert (some q) [] c e ys a ab b d out apart = ground (arith, memory-outside (some c) ys b)
memory-insert p ((x, f) ∷ []) c e ys a ab b d out apart =
    ground (arith, memory-outside (some c) ys b)
memory-insert p ((x, f) ∷ (y, g) ∷ xs) c e ys a ab b (dx, d) out apart =
    let away =
      points-last x y xs (ground arith) (among-append_left x xs ((c, e) ∷ ys) (ground arith)) in
    let ih = memory-insert (some x) ((y, g) ∷ xs) c e ys a ab b d (ground arith) (ground arith) in
    let at_c = among-append x xs ((c, e) ∷ ys) in ground (arith, away, ih, at_c)

-- A new last node.
pub memory-snoc :
    (p : Option ℕ) (xs : Cells) (c : ℕ) (e : Abonent) (a : ℕ) (ab : Abonent) (b : ℕ)
    → Distinct (xs ++ (c, e) ∷ [])
    → among a (xs ++ (c, e) ∷ []) ≡ false
    → memory p (xs ++ (c, e) ∷ (a, ab) ∷ []) b ≡ (
        if b == a
        then some (record { abonent = ab; prev = some c; next = none })
        else if b == c
        then some (record { abonent = e; prev = last p xs; next = some a })
        else memory p (xs ++ (c, e) ∷ []) b)
unfolding memory
memory-snoc p [] c e a ab b d out = ground arith
memory-snoc p ((x, f) ∷ []) c e a ab b d out = ground arith
memory-snoc p ((x, f) ∷ (y, g) ∷ xs) c e a ab b (dx, d) out =
    let ih = memory-snoc (some x) ((y, g) ∷ xs) c e a ab b d (ground arith) in
    let at_c = among-append x xs ((c, e) ∷ []) in ground (arith, ih, at_c)

-- The node at `c` is taken out.
pub memory-remove :
    (p : Option ℕ) (xs : Cells) (c : ℕ) (e : Abonent) (ys : Cells) (b : ℕ)
    → Distinct (xs ++ (c, e) ∷ ys)
    → Outside p (xs ++ (c, e) ∷ ys)
    → memory p (xs ++ ys) b ≡ (
        if b == c
        then none
        else if points (last p xs) b
        then Option.map (set_next (first ys)) (memory p (xs ++ (c, e) ∷ ys) b)
        else if points (first ys) b
        then Option.map (set_prev (last p xs)) (memory p (xs ++ (c, e) ∷ ys) b)
        else memory p (xs ++ (c, e) ∷ ys) b)
unfolding memory
memory-remove p [] c e [] b d apart = ground arith
memory-remove none [] c e ((y, g) ∷ ys) b d apart = ground (arith, memory-outside (some y) ys c)
memory-remove (some q) [] c e ((y, g) ∷ ys) b d apart =
    ground (arith, memory-outside (some y) ys c, memory-outside (some y) ys b)
memory-remove p ((x, f) ∷ []) c e ys b (dx, d) apart =
    let ih = memory-remove (some x) [] c e ys b d dx in ground (arith, ih)
memory-remove p ((x, f) ∷ (y, g) ∷ xs) c e ys b (dx, d) apart =
    let away =
      points-last x y xs (ground arith) (among-append_left x xs ((c, e) ∷ ys) (ground arith)) in
    let ih = memory-remove (some x) ((y, g) ∷ xs) c e ys b d dx in
    let at_c = among-append x xs ((c, e) ∷ ys) in ground (arith, away, ih, at_c)

pub Distinct-insert :
    (xs zs : Cells) (a : ℕ) (ab : Abonent)
    → Distinct (xs ++ zs)
    → among a (xs ++ zs) ≡ false
    → Distinct (xs ++ (a, ab) ∷ zs)
Distinct-insert [] zs a ab d out = (out, d)
Distinct-insert ((x, f) ∷ xs) zs a ab (dx, d) out = (
  ground (arith, among-append x xs zs, among-append x xs ((a, ab) ∷ zs)),
  Distinct-insert xs zs a ab d (ground arith),
)

pub Distinct-remove :
    (xs : Cells) (c : ℕ) (e : Abonent) (ys : Cells)
    → Distinct (xs ++ (c, e) ∷ ys)
    → Distinct (xs ++ ys)
Distinct-remove [] c e ys d = d.1
Distinct-remove ((x, f) ∷ xs) c e ys (dx, d) = (
  ground (arith, among-append x xs ys, among-append x xs ((c, e) ∷ ys)),
  Distinct-remove xs c e ys d,
)

-- The last node of a part that is not empty is one of its nodes.
pub last-among :
    (x : ℕ) (f : Abonent) (xs : Cells) (p : Option ℕ)
    → (q : ℕ) × (last p ((x, f) ∷ xs) ≡ some q) × (among q ((x, f) ∷ xs) ≡ true)
last-among x f [] p = (x, refl, ground arith)
last-among x f ((y, g) ∷ xs) p = let (q, e, i) = last-among y g xs (some x) in (q, e, ground arith)

-- Nodes of the two parts are different.
pub apart :
    (xs ys : Cells) (q c : ℕ)
    → Distinct (xs ++ ys)
    → among q xs ≡ true
    → among c ys ≡ true
    → (q == c) ≡ false
apart [] ys q c d i j = cc
apart ((x, f) ∷ xs) ys q c (dx, d) i j = ground (arith, apart xs ys q c d, among-append x xs ys)

-- A list in the memory that a step gives back.
abbrev pub Holds : Cells → Option (Heap × Option ℕ) → Type 0
Holds cs none = ⊥
Holds cs (some (h, head)) = Represents h head cs

pub abonents-append : (xs ys : Cells) → abonents (xs ++ ys) ≡ abonents xs ++ abonents ys
abonents-append [] ys = refl
abonents-append ((x, f) ∷ xs) ys = ap (◌∷◌ f) (abonents-append xs ys)
