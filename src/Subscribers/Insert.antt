-- ===== src/Subscribers/Insert.antt =====
-- 06_dynamic_memory/list.c: insert links the new node into a well-formed list.
use eltex_homeworks.Prelude.{
  ℕ, ◌≡◌, refl, ◌∙◌, true, false, Option, none, some, [], ◌∷◌, ◌++◌, ◌==◌, if◌then◌else◌, arith,
}
use mathlib.Core.Option
use eltex_homeworks.Prelude.Memory.{write, update, update_lem, >>=-some}
use eltex_homeworks.Subscribers.Linked.{
  Abonent, ListNode, Heap, create_node, set_next, set_prev, link_front, link_end, link_before,
  next_of_prev,
}
use eltex_homeworks.Subscribers.Cells.{
  Cells, first, last, among, points, Distinct, memory, Represents, Holds, memory-inside, memory-at,
  memory-insert, memory-snoc, among-append, Distinct-insert, last-among, apart,
}

-- The memory before the two writes to the neighbours.
abbrev linked : ℕ → Abonent → Option ℕ → Option ℕ → Heap → Heap
linked a ab p q h = write a (record { abonent = ab; prev = p; next = q }) (create_node a ab h)

module _ (a : ℕ) (ab : Abonent) (h : Heap) (hd c : ℕ) (n : ListNode) where
  new_node : create_node a ab h a ≡ some (record { abonent = ab; prev = none; next = none })
  unfolding create_node write
  new_node = ground arith

  link_before_lem :
      (g : Heap)
      → next_of_prev n.prev (set_next (some a)) (linked a ab n.prev (some c) h) ≡ some g
      → g c ≡ some n
      → link_before a hd c n (create_node a ab h)
        ≡ some (write c (set_prev (some a) n) g, if c == hd then some a else some hd)
  unfolding link_before
  link_before_lem g e en =
      >>=-some (update a (λ n'. record n' { prev = n.prev; next = some c }) (create_node a ab h))
        (linked a ab n.prev (some c) h) _ (update_lem a _ _ _ new_node)
      ∙ >>=-some (next_of_prev n.prev (set_next (some a)) (linked a ab n.prev (some c) h)) g _ e
      ∙ >>=-some (update c (set_prev (some a)) g) (write c (set_prev (some a) n) g) _
          (update_lem c (set_prev (some a)) g n en)

  link_front_lem :
      h c ≡ some n
      → (c == a) ≡ false
      → link_front a c (create_node a ab h)
        ≡ some (write c (set_prev (some a) n) (linked a ab none (some c) h), some a)
  unfolding link_front
  link_front_lem en ne =
      >>=-some (update a (set_next (some c)) (create_node a ab h)) (linked a ab none (some c) h) _
        (update_lem a _ _ _ new_node)
      ∙ >>=-some (update c (set_prev (some a)) (linked a ab none (some c) h)) _ _
          (update_lem c (set_prev (some a)) _ n (unfold write create_node in ground arith))

  link_end_lem :
      h c ≡ some n
      → (c == a) ≡ false
      → link_end a hd c (create_node a ab h)
        ≡ some (
          write a
              (record { abonent = ab; prev = some c; next = none })
              (write c (set_next (some a) n) (create_node a ab h)),
          some hd,
        )
  unfolding link_end
  link_end_lem en ne =
      >>=-some (update c (set_next (some a)) (create_node a ab h))
        (write c (set_next (some a) n) (create_node a ab h)) _
        (update_lem c (set_next (some a)) _ n (unfold write create_node in ground arith))
      ∙ >>=-some (update a (set_prev (some c)) (write c (set_next (some a) n) (create_node a ab h)))
          _ _
          (update_lem a (set_prev (some c)) _ (record { abonent = ab; prev = none; next = none })
            (unfold write create_node in ground arith))

-- A new node in a well-formed list, in front of the node at `c`.
module _ (h : Heap) (xs : Cells) (c : ℕ) (e : Abonent) (ys : Cells) (a : ℕ) (ab : Abonent)
    (exact : (b : ℕ) → h b ≡ memory none (xs ++ (c, e) ∷ ys) b) (d : Distinct (xs ++ (c, e) ∷ ys))
    (out : among a (xs ++ (c, e) ∷ ys) ≡ false) where
  -- The node at `c`.
  abbrev pub stop : ListNode
  stop = record { abonent = e; prev = last none xs; next = first ys }

  pub at_stop : h c ≡ some stop
  at_stop = exact c ∙ memory-at none xs c e ys d

  stop-ne : (c == a) ≡ false
  stop-ne = ground (arith, among-append a xs ((c, e) ∷ ys))

  before-exact :
      (g : Heap)
      → ((b : ℕ)
          → g b ≡ (
              if b == a
              then some (record { abonent = ab; prev = last none xs; next = some c })
              else if points (last none xs) b
              then Option.map (set_next (some a)) (h b)
              else h b))
      → (b : ℕ) → write c (set_prev (some a) stop) g b ≡ memory none (xs ++ (a, ab) ∷ (c, e) ∷ ys) b
  unfolding write
  before-exact g same b =
      ground (arith, same b, exact b, memory-insert none xs c e ys a ab b d out tt, stop-ne)

  before-next :
      (g : Heap)
      → next_of_prev (last none xs) (set_next (some a)) (linked a ab (last none xs) (some c) h)
        ≡ some g
      → ((b : ℕ)
          → g b ≡ (
              if b == a
              then some (record { abonent = ab; prev = last none xs; next = some c })
              else if points (last none xs) b
              then Option.map (set_next (some a)) (h b)
              else h b))
      → g c ≡ some stop
      → (hd : ℕ) → (if c == hd then some a else some hd) ≡ first (xs ++ (a, ab) ∷ (c, e) ∷ ys)
      → Holds (xs ++ (a, ab) ∷ (c, e) ∷ ys) (link_before a hd c stop (create_node a ab h))
  before-next g linked_g same at_c hd head_ok =
      rw (link_before_lem a ab h hd c stop g linked_g at_c) (record {
        at_head = head_ok;
        distinct = Distinct-insert xs ((c, e) ∷ ys) a ab d out;
        exact = before-exact g same;
      })

  -- The same where there is a node in front.
  before-some :
      (q : ℕ) (m : ListNode)
      → last none xs ≡ some q
      → h q ≡ some m
      → (q == a) ≡ false
      → (q == c) ≡ false
      → (hd : ℕ) → (if c == hd then some a else some hd) ≡ first (xs ++ (a, ab) ∷ (c, e) ∷ ys)
      → Holds (xs ++ (a, ab) ∷ (c, e) ∷ ys) (link_before a hd c stop (create_node a ab h))
  unfolding next_of_prev update write create_node
  before-some q m eq em nea nec hd head_ok =
      before-next (write q (set_next (some a) m) (linked a ab (last none xs) (some c) h))
        (rw eq
          (update_lem q (set_next (some a)) (linked a ab (some q) (some c) h) m (ground arith)))
        (λ b. ground (arith, em)) (ground (arith, at_stop, stop-ne)) hd head_ok

pub differ : (q a : ℕ) (cs : Cells) → among q cs ≡ true → among a cs ≡ false → (q == a) ≡ false
differ q a [] i o = cc
differ q a ((x, f) ∷ cs) i o = ground (arith, differ q a cs)

some_inj : (a b : ℕ) → ◌≡◌ {A = Option ℕ} (some a) (some b) → a ≡ b
some_inj a b h = cc

pub front-Represents :
    (h : Heap) (c : ℕ) (e : Abonent) (ys : Cells) (a : ℕ) (ab : Abonent)
    → Represents h (some c) ((c, e) ∷ ys)
    → among a ((c, e) ∷ ys) ≡ false
    → Holds ((a, ab) ∷ (c, e) ∷ ys) (link_front a c (create_node a ab h))
front-Represents h c e ys a ab rep out =
    rw
      (link_front_lem a ab h c c (stop h [] c e ys a ab rep.exact rep.distinct out)
        (at_stop h [] c e ys a ab rep.exact rep.distinct out)
        (stop-ne h [] c e ys a ab rep.exact rep.distinct out))
      (record {
        at_head = refl;
        distinct = Distinct-insert [] ((c, e) ∷ ys) a ab rep.distinct out;
        exact =
            before-exact h [] c e ys a ab rep.exact rep.distinct out (linked a ab none (some c) h)
              (λ b. unfold write create_node in ground arith);
      })

-- The head in front of which nothing is linked stays the head.
head-kept :
    (x : ℕ) (f : Abonent) (xs : Cells) (c : ℕ) (e : Abonent) (ys : Cells) (a : ℕ)
    → Distinct ((x, f) ∷ xs ++ (c, e) ∷ ys)
    → (if c == x then some a else some x) ≡ some x
head-kept x f xs c e ys a (dx, d) = ground (arith, among-append x xs ((c, e) ∷ ys))

pub before-Represents :
    (h : Heap) (hd : ℕ) (xs : Cells) (c : ℕ) (e : Abonent) (ys : Cells) (a : ℕ) (ab : Abonent)
    (rep : Represents h (some hd) (xs ++ (c, e) ∷ ys)) (out : among a (xs ++ (c, e) ∷ ys) ≡ false)
    → Holds
        (xs ++ (a, ab) ∷ (c, e) ∷ ys)
        (link_before a hd c (stop h xs c e ys a ab rep.exact rep.distinct out) (create_node a ab h))
before-Represents h hd [] c e ys a ab rep out =
    before-next h [] c e ys a ab rep.exact rep.distinct out (linked a ab none (some c) h)
      (unfold next_of_prev in refl) (λ b. unfold write create_node in ground arith)
      (unfold write create_node in
        ground (arith, at_stop h [] c e ys a ab rep.exact rep.distinct out))
      hd (ground (arith, rep.at_head))
before-Represents h hd ((x, f) ∷ xs) c e ys a ab rep out =
    let cs : Cells = (x, f) ∷ xs in
    let (q, eq, iq) = last-among x f xs none in
    let i = among-append q cs ((c, e) ∷ ys) in
    let (m, em) = memory-inside none (cs ++ (c, e) ∷ ys) q (ground arith) in
    before-some h cs c e ys a ab rep.exact rep.distinct out q m eq (rep.exact q ∙ em)
      (differ q a (cs ++ (c, e) ∷ ys) (ground arith) out)
      (apart cs ((c, e) ∷ ys) q c rep.distinct iq (ground arith)) hd
      (rw (some_inj hd x rep.at_head) (head-kept x f xs c e ys a rep.distinct))

first-snoc :
    (xs : Cells) (c : ℕ) (e : Abonent) (a : ℕ) (ab : Abonent)
    → first (xs ++ (c, e) ∷ []) ≡ first (xs ++ (c, e) ∷ (a, ab) ∷ [])
first-snoc [] c e a ab = refl
first-snoc (x ∷ xs) c e a ab = refl

Distinct-snoc :
    (xs : Cells) (c : ℕ) (e : Abonent) (a : ℕ) (ab : Abonent)
    → Distinct (xs ++ (c, e) ∷ [])
    → among a (xs ++ (c, e) ∷ []) ≡ false
    → Distinct (xs ++ (c, e) ∷ (a, ab) ∷ [])
Distinct-snoc [] c e a ab d out = (ground arith, (refl, tt))
Distinct-snoc ((x, f) ∷ xs) c e a ab (dx, d) out = (
  ground (arith, among-append x xs ((c, e) ∷ []), among-append x xs ((c, e) ∷ (a, ab) ∷ [])),
  Distinct-snoc xs c e a ab d (ground arith),
)

pub end-Represents :
    (h : Heap) (hd : ℕ) (xs : Cells) (c : ℕ) (e : Abonent) (a : ℕ) (ab : Abonent)
    → Represents h (some hd) (xs ++ (c, e) ∷ [])
    → among a (xs ++ (c, e) ∷ []) ≡ false
    → Holds (xs ++ (c, e) ∷ (a, ab) ∷ []) (link_end a hd c (create_node a ab h))
unfolding write create_node
end-Represents h hd xs c e a ab rep out =
    let n = stop h xs c e [] a ab rep.exact rep.distinct out in
    let at_c = at_stop h xs c e [] a ab rep.exact rep.distinct out in
    let ne = stop-ne h xs c e [] a ab rep.exact rep.distinct out in
    rw (link_end_lem a ab h hd c n at_c ne) (record {
      at_head = rep.at_head ∙ first-snoc xs c e a ab;
      distinct = Distinct-snoc xs c e a ab rep.distinct out;
      exact = λ b. ground (arith, rep.exact b, memory-snoc none xs c e a ab b rep.distinct out);
    })
