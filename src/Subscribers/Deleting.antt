-- ===== src/Subscribers/Deleting.antt =====
-- 06_dynamic_memory/list.c: delete_node takes a node out of a well-formed list.
use mathlib.Core.Option
use eltex_homeworks.Prelude.{
  ℕ, zero, suc, ◌≤◌, ◌≡◌, refl, sym, subst, ap, ◌∙◌, Bool, true, false, Option, none, some, List,
  [], ◌∷◌, ◌++◌, if◌then◌else◌, arith, inl, inr, Bool-cases, length, append_assoc, is_some,
}
use eltex_homeworks.Prelude.Memory.{◌>>=◌, write, free, update_lem, >>=-some}
use eltex_homeworks.Libc.Text.{Text, str_eq}
use eltex_homeworks.Subscribers.Linked.{
  Abonent, ListNode, Heap, set_next, set_prev, next_of_prev, unlink, delete_from, delete_node,
}
use eltex_homeworks.Subscribers.Cells.{
  Cells, first, last, abonents, among, points, Distinct, Represents, memory-at, memory-inside,
  memory-remove, among-append, Distinct-remove, last-among, apart, abonents-append,
}
use eltex_homeworks.Subscribers.Order.{remove, find}

-- What a write through a pointer that may be NULL leaves.
record Written (p : Option ℕ) (f : ListNode → ListNode) (g : Heap) (r : Option Heap) : Type 0 where
  after : Heap
  done : r ≡ some after
  only : (b : ℕ) → after b ≡ (if points p b then Option.map f (g b) else g b)

next_of_prev-Written :
    (p : Option ℕ) (f : ListNode → ListNode) (g : Heap)
    → ((q : ℕ) → p ≡ some q → (m : ListNode) × (g q ≡ some m))
    → Written p f g (next_of_prev p f g)
unfolding next_of_prev
next_of_prev-Written none f g ok = record { after = g; done = refl; only = λ b. refl }
next_of_prev-Written (some q) f g ok =
    let (m, em) = ok q refl in
    record {
      after = write q (f m) g;
      done = update_lem q f g m em;
      only = λ b. unfold write in ground (arith, em);
    }

still :
    {p : Option ℕ} {f : ListNode → ListNode} {g : Heap} {r : Option Heap} (w : Written p f g r)
    (q : ℕ) (m : ListNode)
    → g q ≡ some m
    → (m' : ListNode) × (w.after q ≡ some m')
still {p} {f} w q m em = elim (Bool-cases (points p q)) [
  | inl at ↦ (f m, w.only q ∙ rw (at, em) refl)
  | inr other ↦ (m, w.only q ∙ rw (other, em) refl)
]

unlink-head :
    (head : Option ℕ) (xs : Cells) (c : ℕ) (e : Abonent) (ys : Cells)
    → head ≡ first (xs ++ (c, e) ∷ ys)
    → elim (last none xs) [ none ↦ first ys | some _ ↦ head ] ≡ first (xs ++ ys)
unlink-head head [] c e ys at = refl
unlink-head head ((x, f) ∷ xs) c e ys at = let (q, eq, i) = last-among x f xs none in rw eq at

last-inside : (xs : Cells) (q : ℕ) → last none xs ≡ some q → among q xs ≡ true
last-inside [] q at = cc
last-inside ((x, f) ∷ xs) q at = let (q', e, i) = last-among x f xs none in ground (arith, e, at)

first-inside : (ys : Cells) (q : ℕ) → first ys ≡ some q → among q ys ≡ true
first-inside [] q at = cc
first-inside ((y, g) ∷ ys) q at = ground arith

points-some : (p : Option ℕ) (b : ℕ) → points p b ≡ true → p ≡ some b
points-some none b h = cc
points-some (some a) b h = ground arith

module _ (h : Heap) (head : Option ℕ) (xs : Cells) (c : ℕ) (e : Abonent) (ys : Cells)
    (rep : Represents h head (xs ++ (c, e) ∷ ys)) where
  inside : (b : ℕ) → among b (xs ++ (c, e) ∷ ys) ≡ true → (m : ListNode) × (h b ≡ some m)
  inside b i = let (m, em) = memory-inside none (xs ++ (c, e) ∷ ys) b i in (m, rep.exact b ∙ em)

  prev-apart : (b : ℕ) → points (last none xs) b ≡ true → points (first ys) b ≡ false
  prev-apart b at = elim (Bool-cases (points (first ys) b)) [
    | inr no_first ↦ no_first
    | inl also ↦
        let i = last-inside xs b (points-some (last none xs) b at) in
        let j = first-inside ys b (points-some (first ys) b also) in
        let ne = apart xs ((c, e) ∷ ys) b b rep.distinct i (ground arith) in ground arith
  ]

  unlink-Represents :
      (after : Heap × Option ℕ) × (unlink c
          (record { abonent = e; prev = last none xs; next = first ys })
          h
          head
        ≡ some after)
      × Represents after.0 after.1 (xs ++ ys)
  unfolding unlink
  unlink-Represents =
      let w =
        next_of_prev-Written (last none xs) (set_next (first ys)) h (λ q at.
          inside q (ground (arith, among-append q xs ((c, e) ∷ ys), last-inside xs q at))) in
      let v = next_of_prev-Written (first ys) (set_prev (last none xs)) w.after (λ q at.
        let (m, em) =
          inside q (ground (arith, among-append q xs ((c, e) ∷ ys), first-inside ys q at)) in
        still w q m em) in
      (
        (free c v.after, elim (last none xs) [ none ↦ first ys | some _ ↦ head ]),
        >>=-some (next_of_prev (last none xs) (set_next (first ys)) h) w.after _ w.done
            ∙ >>=-some (next_of_prev (first ys) (set_prev (last none xs)) w.after) v.after _ v.done,
        record {
          at_head = unlink-head head xs c e ys rep.at_head;
          distinct = Distinct-remove xs c e ys rep.distinct;
          exact = λ b.
              unfold free in
              ground (
                arith,
                v.only b,
                w.only b,
                rep.exact b,
                prev-apart b,
                memory-remove none xs c e ys b rep.distinct tt,
              );
        },
      )

-- What delete_node makes of a list with these subscribers.
abbrev pub Deleted : Text → List Abonent → Option (Bool × Heap × Option ℕ) → Type 0
Deleted name es none = ⊥
Deleted name es (some (found, h, head)) =
    (cs : Cells) × Represents h head cs
    × (abonents cs ≡ remove name es)
    × (found ≡ is_some (find name es))

-- No node has the name.
abbrev Without : Text → Cells → Type 0
Without name [] = Unit {0}
Without name ((x, f) ∷ xs) = (str_eq f.name name ≡ false) × Without name xs

Without-snoc :
    (name : Text) (xs : Cells) (c : ℕ) (e : Abonent)
    → Without name xs
    → str_eq e.name name ≡ false
    → Without name (xs ++ (c, e) ∷ [])
Without-snoc name [] c e w h = (h, tt)
Without-snoc name ((x, f) ∷ xs) c e (wx, w) h = (wx, Without-snoc name xs c e w h)

remove-Without :
    (name : Text) (xs ys : Cells)
    → Without name xs
    → remove name (abonents (xs ++ ys)) ≡ abonents xs ++ remove name (abonents ys)
remove-Without name [] ys w = refl
remove-Without name ((x, f) ∷ xs) ys (wx, w) = rw wx (ap (◌∷◌ f) (remove-Without name xs ys w))

find-Without :
    (name : Text) (xs ys : Cells)
    → Without name xs
    → find name (abonents (xs ++ ys)) ≡ find name (abonents ys)
find-Without name [] ys w = refl
find-Without name ((x, f) ∷ xs) ys (wx, w) = rw wx (find-Without name xs ys w)

-- The loop at a node of the name.
delete_from-found :
    (fuel : ℕ) (name : Text) (h : Heap) (head : Option ℕ) (xs : Cells) (c : ℕ) (e : Abonent)
    (ys : Cells)
    → Represents h head (xs ++ (c, e) ∷ ys)
    → Without name xs
    → str_eq e.name name ≡ true
    → Deleted name (abonents (xs ++ (c, e) ∷ ys)) (delete_from (suc fuel) name h head (some c))
unfolding delete_from
delete_from-found fuel name h head xs c e ys rep w same =
    let (after, done, rep') = unlink-Represents h head xs c e ys rep in
    rw (rep.exact c ∙ memory-at none xs c e ys rep.distinct, ◌>>=◌)
      (rw (same, done)
        (
          xs ++ ys,
          rep',
          abonents-append xs ys ∙ sym (remove-Without name xs ((c, e) ∷ ys) w ∙ rw same refl),
          sym (ap is_some (find-Without name xs ((c, e) ∷ ys) w) ∙ rw same refl),
        ))

delete_from-Deleted :
    (fuel : ℕ) (name : Text) (h : Heap) (head : Option ℕ) (cs xs ys : Cells)
    → Represents h head cs
    → cs ≡ xs ++ ys
    → Without name xs
    → length ys ≤ fuel
    → Deleted name (abonents cs) (delete_from fuel name h head (first ys))
unfolding delete_from
delete_from-Deleted fuel name h head cs xs [] rep eq w enough = (
  cs,
  rep,
  rw eq (abonents-append xs [] ∙ sym (remove-Without name xs [] w)),
  rw eq (sym (ap is_some (find-Without name xs [] w))),
)
delete_from-Deleted zero name h head cs xs ((c, e) ∷ ys) rep eq w enough = absurd (omega arith)
delete_from-Deleted (suc fuel) name h head cs xs ((c, e) ∷ ys) rep eq w enough =
    elim (Bool-cases (str_eq e.name name)) [
      | inl same ↦
          subst (λ cs. Deleted name (abonents cs) (delete_from (suc fuel) name h head (some c)))
            (sym eq)
            (delete_from-found fuel name h head xs c e ys (subst (Represents h head) eq rep) w same)
      | inr other ↦
          let at_c : h c ≡ some (record { abonent = e; prev = last none xs; next = first ys }) =
            rep.exact c ∙ rw eq (memory-at none xs c e ys (subst Distinct eq rep.distinct)) in
          rw (at_c, ◌>>=◌)
            (rw other (
              delete_from-Deleted fuel name h head cs (xs ++ (c, e) ∷ []) ys rep
                (eq ∙ sym (append_assoc xs ((c, e) ∷ []) ys)) (Without-snoc name xs c e w other)
                (omega arith)))
    ]

-- In a well-formed list delete_node uses no bad pointer and comes to an end: its loop makes at most one
-- round for each node. Afterwards the list is well formed and has all subscribers but the first one of
-- the name; its node is freed. The result says whether there was one.
pub delete_node-Deleted :
    (fuel : ℕ) (name : Text) (h : Heap) (head : Option ℕ) (cs : Cells)
    → Represents h head cs
    → length cs ≤ fuel
    → Deleted name (abonents cs) (delete_node fuel name h head)
unfolding delete_node
delete_node-Deleted fuel name h head cs rep enough =
    subst (λ p. Deleted name (abonents cs) (delete_from fuel name h head p)) (sym rep.at_head)
      (delete_from-Deleted fuel name h head cs [] cs rep refl tt enough)
