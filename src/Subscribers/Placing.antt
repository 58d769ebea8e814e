-- ===== src/Subscribers/Placing.antt =====
-- 06_dynamic_memory/list.c: insert finds the place of the new name.
use eltex_homeworks.Prelude.{
  ℕ, zero, suc, ◌≤◌, ◌<◌, ◌≡◌, refl, sym, subst, ap, ◌∙◌, Bool, true, false, ◌&&◌, Option, none,
  some, List, [], ◌∷◌, ◌++◌, ◌==◌, if◌then◌else◌, arith, inl, inr, ◌⊎◌, Bool-cases, ==_refl, length,
  append_assoc, not, is_some,
}
use eltex_homeworks.Prelude.Memory.{◌>>=◌, write}
use eltex_homeworks.Libc.Text.{Text, str_lt}
use eltex_homeworks.Subscribers.Linked.{
  Abonent, ListNode, Heap, create_node, walk, link_front, link_end, link_before, link_at, insert,
}
use eltex_homeworks.Subscribers.Cells.{
  Cells, first, last, abonents, among, Distinct, memory, Represents, Holds, memory-at,
  memory-inside, among-append, abonents-append,
}
use eltex_homeworks.Subscribers.Insert.{before-Represents, front-Represents, end-Represents, differ}
use eltex_homeworks.Subscribers.Order.{put, str_lt_asymm}

-- The names of the nodes are smaller.
abbrev Below : Text → Cells → Type 0
Below name [] = Unit {0}
Below name ((x, f) ∷ xs) = (str_lt f.name name ≡ true) × Below name xs

Below-snoc :
    (name : Text) (xs : Cells) (c : ℕ) (e : Abonent)
    → Below name xs
    → str_lt e.name name ≡ true
    → Below name (xs ++ (c, e) ∷ [])
Below-snoc name [] c e b h = (h, tt)
Below-snoc name ((x, f) ∷ xs) c e (bx, b) h = (bx, Below-snoc name xs c e b h)

-- The loop stops at the first name that is not smaller, or at the last node.
record Stops (name : Text) (cs : Cells) (found : Option ℕ) : Type 0 where
  before : Cells
  at : ℕ
  abonent : Abonent
  behind : Cells
  stops : found ≡ some at
  split : cs ≡ before ++ (at, abonent) ∷ behind
  below : Below name before
  reason : (str_lt abonent.name name ≡ false) ⊎ (behind ≡ [])

module _ (name : Text) (g : Heap) (cs : Cells) (d : Distinct cs)
    (same : (b : ℕ) → among b cs ≡ true → g b ≡ memory none cs b) where
  node_at :
      (xs : Cells) (c : ℕ) (e : Abonent) (ys : Cells)
      → cs ≡ xs ++ (c, e) ∷ ys
      → g c ≡ some (record { abonent = e; prev = last none xs; next = first ys })
  node_at xs c e ys eq =
      same c (rw eq (ground (arith, among-append c xs ((c, e) ∷ ys))))
      ∙ (rw eq (memory-at none xs c e ys (subst Distinct eq d)))

  walk-Stops :
      (fuel : ℕ) (xs : Cells) (c : ℕ) (e : Abonent) (ys : Cells)
      → cs ≡ xs ++ (c, e) ∷ ys
      → length ys < fuel
      → Below name xs
      → Stops name cs (walk fuel name g c)
  unfolding walk
  walk-Stops zero xs c e ys eq enough b = absurd (omega arith)
  walk-Stops (suc fuel) xs c e [] eq enough b = elim (Bool-cases (str_lt e.name name)) [
    | inl less ↦ record {
      before = xs;
      at = c;
      abonent = e;
      behind = [];
      split = eq;
      below = b;
      reason = inr refl;
      stops = rw (node_at xs c e [] eq, ◌>>=◌) (rw less refl);
    }
    | inr not_less ↦ record {
      before = xs;
      at = c;
      abonent = e;
      behind = [];
      split = eq;
      below = b;
      reason = inr refl;
      stops = rw (node_at xs c e [] eq, ◌>>=◌) (rw not_less refl);
    }
  ]
  walk-Stops (suc fuel) xs c e ((y, f) ∷ ys) eq enough b = elim (Bool-cases (str_lt e.name name)) [
    | inl less ↦
        let r =
          walk-Stops fuel (xs ++ (c, e) ∷ []) y f ys
            (eq ∙ sym (append_assoc xs ((c, e) ∷ []) ((y, f) ∷ ys))) (omega arith)
            (Below-snoc name xs c e b less) in
        record {
          before = r.before;
          at = r.at;
          abonent = r.abonent;
          behind = r.behind;
          split = r.split;
          below = r.below;
          reason = r.reason;
          stops = rw (node_at xs c e ((y, f) ∷ ys) eq, ◌>>=◌) (rw less r.stops);
        }
    | inr not_less ↦ record {
      before = xs;
      at = c;
      abonent = e;
      behind = (y, f) ∷ ys;
      split = eq;
      below = b;
      reason = inl not_less;
      stops = rw (node_at xs c e ((y, f) ∷ ys) eq, ◌>>=◌) (rw not_less refl);
    }
  ]

put-Below :
    (ab : Abonent) (xs zs : Cells)
    → Below ab.name xs
    → put ab (abonents (xs ++ zs)) ≡ abonents xs ++ put ab (abonents zs)
put-Below ab [] zs b = refl
put-Below ab ((x, f) ∷ xs) zs (bx, b) = rw bx (ap (◌∷◌ f) (put-Below ab xs zs b))

link_at_lem :
    (a : ℕ) (ab : Abonent) (hd c : ℕ) (g : Heap) (n : ListNode)
    → g c ≡ some n
    → link_at a ab hd c g ≡ (
        if c == hd && str_lt ab.name n.abonent.name
        then link_front a hd g
        else if not (is_some n.next) && str_lt n.abonent.name ab.name
        then link_end a hd c g
        else link_before a hd c n g)
unfolding link_at
link_at_lem a ab hd c g n e = rw (e, ◌>>=◌) refl

-- A list that holds these subscribers.
abbrev pub Lists : List Abonent → Option (Heap × Option ℕ) → Type 0
Lists es r = (cs : Cells) × Holds cs r × (abonents cs ≡ es)

and_false : (b : Bool) → (b && false) ≡ false
and_false b = ground arith

pub some_eq : (a b : ℕ) → ◌≡◌ {A = Option ℕ} (some a) (some b) → b ≡ a
some_eq a b h = cc

module _ (a : ℕ) (ab : Abonent) (h : Heap) where
  head-Holds :
      (c : ℕ) (e : Abonent) (ys : Cells)
      → Represents h (some c) ((c, e) ∷ ys)
      → among a ((c, e) ∷ ys) ≡ false
      → str_lt e.name ab.name ≡ false
      → create_node a ab h c ≡ some (record { abonent = e; prev = none; next = first ys })
      → Holds ((a, ab) ∷ (c, e) ∷ ys) (link_at a ab c c (create_node a ab h))
  head-Holds c e ys rep out not_less at_c = elim (Bool-cases (str_lt ab.name e.name)) [
    | inl front ↦
        rw (link_at_lem a ab c c (create_node a ab h) _ at_c, ==_refl c, front)
          (front-Represents h c e ys a ab rep out)
    | inr same ↦
        rw
          (
            link_at_lem a ab c c (create_node a ab h) _ at_c,
            ==_refl c,
            same,
            not_less,
            and_false (not (is_some (first ys))),
          )
          (before-Represents h c [] c e ys a ab rep out)
  ]

not_head :
    (hd x : ℕ) (f : Abonent) (xs : Cells) (c : ℕ) (e : Abonent) (ys : Cells)
    → ◌≡◌ {A = Option ℕ} (some hd) (some x)
    → Distinct ((x, f) ∷ xs ++ (c, e) ∷ ys)
    → (c == hd) ≡ false
not_head hd x f xs c e ys at (dx, d) =
    rw (some_eq x hd (sym at)) (ground (arith, among-append x xs ((c, e) ∷ ys)))

module _ (a : ℕ) (ab : Abonent) (h : Heap) (hd : ℕ) where
  before-Holds :
      (xs : Cells) (c : ℕ) (e : Abonent) (ys : Cells)
      → Represents h (some hd) (xs ++ (c, e) ∷ ys)
      → among a (xs ++ (c, e) ∷ ys) ≡ false
      → str_lt e.name ab.name ≡ false
      → create_node a ab h c ≡ some (record { abonent = e; prev = last none xs; next = first ys })
      → Holds (xs ++ (a, ab) ∷ (c, e) ∷ ys) (link_at a ab hd c (create_node a ab h))
  before-Holds [] c e ys rep out not_less at_c =
      subst (λ k. Holds ((a, ab) ∷ (c, e) ∷ ys) (link_at a ab k c (create_node a ab h)))
        (some_eq hd c rep.at_head)
        (head-Holds a ab h c e ys
          (record { at_head = refl; distinct = rep.distinct; exact = rep.exact }) out not_less at_c)
  before-Holds ((x, f) ∷ xs) c e ys rep out not_less at_c =
      rw
        (
          link_at_lem a ab hd c (create_node a ab h) _ at_c,
          not_head hd x f xs c e ys rep.at_head rep.distinct,
          not_less,
          and_false (not (is_some (first ys))),
        )
        (before-Represents h hd ((x, f) ∷ xs) c e ys a ab rep out)

  -- In front of a name that is not smaller.
  link_at-before :
      (xs : Cells) (c : ℕ) (e : Abonent) (ys : Cells)
      → Represents h (some hd) (xs ++ (c, e) ∷ ys)
      → among a (xs ++ (c, e) ∷ ys) ≡ false
      → Below ab.name xs
      → str_lt e.name ab.name ≡ false
      → create_node a ab h c ≡ some (record { abonent = e; prev = last none xs; next = first ys })
      → Lists (put ab (abonents (xs ++ (c, e) ∷ ys))) (link_at a ab hd c (create_node a ab h))
  link_at-before xs c e ys rep out b not_less at_c = (
    xs ++ (a, ab) ∷ (c, e) ∷ ys,
    before-Holds xs c e ys rep out not_less at_c,
    abonents-append xs ((a, ab) ∷ (c, e) ∷ ys)
        ∙ sym (put-Below ab xs ((c, e) ∷ ys) b ∙ rw not_less refl),
  )

  link_at-end :
      (xs : Cells) (c : ℕ) (e : Abonent)
      → Represents h (some hd) (xs ++ (c, e) ∷ [])
      → among a (xs ++ (c, e) ∷ []) ≡ false
      → Below ab.name xs
      → str_lt e.name ab.name ≡ true
      → create_node a ab h c ≡ some (record { abonent = e; prev = last none xs; next = none })
      → Lists (put ab (abonents (xs ++ (c, e) ∷ []))) (link_at a ab hd c (create_node a ab h))
  link_at-end xs c e rep out b less at_c = (
    xs ++ (c, e) ∷ (a, ab) ∷ [],
    rw
        (
          link_at_lem a ab hd c (create_node a ab h) _ at_c,
          str_lt_asymm e.name ab.name less,
          less,
          and_false (c == hd),
        )
        (end-Represents h hd xs c e a ab rep out),
    abonents-append xs ((c, e) ∷ (a, ab) ∷ [])
        ∙ sym (put-Below ab xs ((c, e) ∷ []) b ∙ rw less refl),
  )

  abbrev Same : Cells → Type 0
  Same cs = (b : ℕ) → among b cs ≡ true → create_node a ab h b ≡ memory none cs b

  at_place :
      (xs : Cells) (c : ℕ) (e : Abonent) (ys : Cells)
      → Distinct (xs ++ (c, e) ∷ ys)
      → Same (xs ++ (c, e) ∷ ys)
      → create_node a ab h c ≡ some (record { abonent = e; prev = last none xs; next = first ys })
  at_place xs c e ys d same =
      same c (ground (arith, among-append c xs ((c, e) ∷ ys))) ∙ memory-at none xs c e ys d

  link_at-last :
      (xs : Cells) (c : ℕ) (e : Abonent)
      → Represents h (some hd) (xs ++ (c, e) ∷ [])
      → among a (xs ++ (c, e) ∷ []) ≡ false
      → Below ab.name xs
      → Same (xs ++ (c, e) ∷ [])
      → Lists (put ab (abonents (xs ++ (c, e) ∷ []))) (link_at a ab hd c (create_node a ab h))
  link_at-last xs c e rep out b same =
      let at_c = at_place xs c e [] rep.distinct same in
      elim (Bool-cases (str_lt e.name ab.name)) [
        | inl less ↦ link_at-end xs c e rep out b less at_c
        | inr not_less ↦ link_at-before xs c e [] rep out b not_less at_c
      ]

  link_at-place :
      (xs : Cells) (c : ℕ) (e : Abonent) (ys : Cells)
      → (str_lt e.name ab.name ≡ false) ⊎ (ys ≡ [])
      → Represents h (some hd) (xs ++ (c, e) ∷ ys)
      → among a (xs ++ (c, e) ∷ ys) ≡ false
      → Below ab.name xs
      → Same (xs ++ (c, e) ∷ ys)
      → Lists (put ab (abonents (xs ++ (c, e) ∷ ys))) (link_at a ab hd c (create_node a ab h))
  link_at-place xs c e ys (inl not_less) rep out b same =
      link_at-before xs c e ys rep out b not_less (at_place xs c e ys rep.distinct same)
  link_at-place xs c e [] (inr at_end) rep out b same = link_at-last xs c e rep out b same
  link_at-place xs c e (y ∷ ys) (inr at_end) rep out b same = cc

  link_at-Stops :
      (cs : Cells) (found : Option ℕ)
      → Represents h (some hd) cs
      → among a cs ≡ false
      → Stops ab.name cs found
      → Same cs
      → Lists (put ab (abonents cs)) (found >>= λ c. link_at a ab hd c (create_node a ab h))
  link_at-Stops cs found rep out s same =
      let eq = s.split in
      rw (s.stops, ◌>>=◌)
        (subst (λ cs. Lists (put ab (abonents cs)) (link_at a ab hd s.at (create_node a ab h)))
          (sym eq)
          (link_at-place s.before s.at s.abonent s.behind s.reason
            (subst (Represents h (some hd)) eq rep) (subst (λ cs. among a cs ≡ false) eq out)
            s.below (subst Same eq same)))

-- The new node is written where nothing was.
create_node-same :
    (a : ℕ) (ab : Abonent) (h : Heap) (cs : Cells)
    → ((b : ℕ) → h b ≡ memory none cs b)
    → among a cs ≡ false
    → (b : ℕ) → among b cs ≡ true
    → create_node a ab h b ≡ memory none cs b
unfolding create_node write
create_node-same a ab h cs exact out b i = ground (arith, exact b, differ b a cs i out)

pub fresh-among :
    (h : Heap) (head : Option ℕ) (a : ℕ) (cs : Cells)
    → Represents h head cs
    → h a ≡ none
    → among a cs ≡ false
fresh-among h head a cs rep e = elim (Bool-cases (among a cs)) [
  | inl i ↦ let (n, en) = memory-inside none cs a i in cc (rep.exact a, en)
  | inr out ↦ out
]

single :
    (h : Heap) (a : ℕ) (ab : Abonent)
    → Represents h none []
    → Represents (create_node a ab h) (some a) ((a, ab) ∷ [])
unfolding create_node write memory
single h a ab rep = record {
  at_head = refl;
  distinct = (refl, tt);
  exact = λ b. ground (arith, rep.exact b);
}

insert-some :
    (fuel a : ℕ) (ab : Abonent) (h : Heap) (head : Option ℕ) (cs : Cells)
    → Represents h head cs
    → h a ≡ none
    → length cs ≤ fuel
    → Lists (put ab (abonents cs)) (insert fuel (some a) ab h head)
unfolding insert
insert-some fuel a ab h none [] rep new enough = ((a, ab) ∷ [], single h a ab rep, refl)
insert-some fuel a ab h (some hd) [] rep new enough = cc (rep.at_head)
insert-some fuel a ab h none ((c, e) ∷ cs) rep new enough = cc (rep.at_head)
insert-some fuel a ab h (some hd) ((c, e) ∷ cs) rep new enough =
    let out = fresh-among h (some hd) a ((c, e) ∷ cs) rep new in
    let same = create_node-same a ab h ((c, e) ∷ cs) rep.exact out in
    link_at-Stops a ab h hd ((c, e) ∷ cs) (walk fuel ab.name (create_node a ab h) hd) rep out
      (rw (some_eq c hd (sym rep.at_head)) (
        walk-Stops ab.name (create_node a ab h) ((c, e) ∷ cs) rep.distinct same fuel [] c e cs refl
          (omega arith) tt))
      same

-- In a well-formed list insert uses no bad pointer, and afterwards the list is well formed and has the
-- new subscriber in front of the first name that is not smaller; if malloc gives NULL, the list stays as
-- it is. The loop makes at most one round for each node.
pub insert-Lists :
    (fuel : ℕ) (m : Option ℕ) (ab : Abonent) (h : Heap) (head : Option ℕ) (cs : Cells)
    → Represents h head cs
    → ((a : ℕ) → m ≡ some a → h a ≡ none)
    → length cs ≤ fuel
    → Lists (if is_some m then put ab (abonents cs) else abonents cs) (insert fuel m ab h head)
insert-Lists fuel none ab h head cs rep new enough = (cs, unfold insert in rep, refl)
insert-Lists fuel (some a) ab h head cs rep new enough =
    insert-some fuel a ab h head cs rep (new a refl) enough
