-- ===== src/ThreadQueue/Fifo.antt =====
-- 16_sockets/part2/consumer_producer/queue.c against a bounded first-in first-out list.
use eltex_homeworks.Prelude.{
  ℕ, zero, suc, ◌≤◌, ◌≡◌, refl, sym, ap, ◌∙◌, inl, inr, Bool, true, false, Option, none, some, List,
  [], ◌∷◌, ◌++◌, arith, ◌==◌, if◌then◌else◌, length, Bool-cases, is_some, Option-cases,
}
use eltex_homeworks.Prelude.Int.{ℤ, pos, ◌+ℤ◌, ◌-ℤ◌, leb_ℤ}
use eltex_homeworks.ThreadQueue.Queue.{
  QueueNode, Heap, nothing_allocated, write, free, ThreadQueue, success, failure, init_queue, link,
  enqueue, advance, dequeue, free_nodes, cleanup_queue,
}
use eltex_homeworks.ThreadQueue.Chain.{
  Cells, first, last, fds, among, Distinct, Chain, Represents, fds-append, length-snoc, length-fds,
  among-last, last-append, Distinct-append, Chain-free, fresh-among, apart, among-snoc,
  write-write_other, Chain-link, last-cons,
}

-- The list after an enqueue, and its code.
abbrev pub push : ℤ → Bool → ℤ → List ℤ → ℤ × List ℤ
push capacity allocated fd xs =
    if leb_ℤ capacity (pos (length xs))
    then (failure, xs)
    else if allocated
    then (success, xs ++ fd ∷ [])
    else (failure, xs)

-- The list after a dequeue, and the descriptor that it gives.
abbrev pub pop : List ℤ → Option ℤ × List ℤ
pop [] = (none, [])
pop (fd ∷ xs) = (some fd, xs)

grown : (z : ℤ) (n : ℕ) → z ≡ pos n → z +ℤ pos 1 ≡ pos (suc n)
unfolding ◌+ℤ◌
grown z n e = rw e (ground arith)

shrunk : (z : ℤ) (n : ℕ) → z ≡ pos (suc n) → z -ℤ pos 1 ≡ pos n
unfolding ◌-ℤ◌
shrunk z n e = rw e (ground arith)

module _ (h : Heap) (q : ThreadQueue) where
  link-empty :
      (a : ℕ) (fd : ℤ)
      → q.rear ≡ none
      → link a fd h q
        ≡ some (
          write a (record { client_fd = fd; next = none }) h,
          record q { front = some a; rear = some a; size = q.size +ℤ pos 1 },
        )
  unfolding link
  link-empty a fd e = rw e

  link-rear :
      (a : ℕ) (fd : ℤ) (r : ℕ) (n : QueueNode)
      → q.rear ≡ some r
      → h r ≡ some n
      → (r == a) ≡ false
      → link a fd h q
        ≡ some (
          write r (record n { next = some a }) (write a (record { client_fd = fd; next = none }) h),
          record q { rear = some a; size = q.size +ℤ pos 1 },
        )
  unfolding link write
  link-rear a fd r n e er ne = ground arith

  link-Represents :
      (a : ℕ) (fd : ℤ) (cs : Cells)
      → Represents h q cs
      → h a ≡ none
      → (h' : Heap) × (q' : ThreadQueue) × (link a fd h q ≡ some (h', q'))
        × (q'.capacity ≡ q.capacity)
        × Represents h' q' (cs ++ (a, fd) ∷ [])
  unfolding write
  link-Represents a fd [] rep new = (
    _,
    _,
    link-empty a fd rep.at_rear,
    refl,
    record {
      at_front = refl;
      at_rear = refl;
      sized = grown _ _ rep.sized;
      distinct = (refl, tt);
      chain = (ground arith, tt);
      owned = λ b out. ground (arith, rep.owned b refl);
    },
  )
  link-Represents a fd (c ∷ cs) rep new =
      let (r, at) = last-cons c cs in
      let out = fresh-among h a (c ∷ cs) rep.chain new in
      let (n, en, chain') = Chain-link h a r fd (c ∷ cs) at out rep.distinct rep.chain in
      (
        _,
        _,
        link-rear a fd r n (rep.at_rear ∙ at) en
            (apart a r (c ∷ cs) out (among-last r (c ∷ cs) at)),
        refl,
        record {
          at_front = rep.at_front;
          at_rear = sym (last-append (c ∷ cs) a fd);
          sized = grown _ _ rep.sized ∙ sym (ap pos (length-snoc (c ∷ cs) a fd));
          distinct = Distinct-append (c ∷ cs) a fd rep.distinct out;
          chain = chain';
          owned = λ b out'.
              let (ne, out_b) = among-snoc b (c ∷ cs) a fd out' in
              write-write_other h a r b _ _ ne (apart b r (c ∷ cs) out_b (among-last r (c ∷ cs) at))
              ∙ rep.owned b out_b;
        },
      )

module _ (m : Option ℕ) (fd : ℤ) (h : Heap) (q : ThreadQueue) where
  enqueue-full : leb_ℤ q.capacity q.size ≡ true → enqueue m fd h q ≡ some (failure, h, q)
  unfolding enqueue
  enqueue-full full = rw full

  enqueue-null :
      leb_ℤ q.capacity q.size ≡ false → m ≡ none → enqueue m fd h q ≡ some (failure, h, q)
  unfolding enqueue
  enqueue-null room e = rw (room, e)

  enqueue-link :
      (a : ℕ) (h' : Heap) (q' : ThreadQueue)
      → leb_ℤ q.capacity q.size ≡ false
      → m ≡ some a
      → link a fd h q ≡ some (h', q')
      → enqueue m fd h q ≡ some (success, h', q')
  unfolding enqueue
  enqueue-link a h' q' room e linked = rw (room, e, linked)

-- The guard of enqueue on the list.
guard :
    (h : Heap) (q : ThreadQueue) (cs : Cells)
    → Represents h q cs
    → leb_ℤ q.capacity q.size ≡ leb_ℤ q.capacity (pos (length (fds cs)))
guard h q cs rep = ap (leb_ℤ q.capacity) (rep.sized ∙ sym (ap pos (length-fds cs)))

-- On a queue that holds the descriptors `xs`, enqueue never uses a bad pointer. It answers as the
-- bounded list does, and the queue then holds what that list holds; malloc gives an address that is not
-- in use, or NULL.
enqueue-Represents :
    (m : Option ℕ) (fd : ℤ) (h : Heap) (q : ThreadQueue) (cs : Cells)
    → Represents h q cs
    → ((a : ℕ) → m ≡ some a → h a ≡ none)
    → (code : ℤ) × (h' : Heap) × (q' : ThreadQueue) × (cs' : Cells) × (enqueue m fd h q
        ≡ some (code, h', q'))
      × Represents h' q' cs'
      × (q'.capacity ≡ q.capacity)
      × ((code, fds cs') ≡ push q.capacity (is_some m) fd (fds cs))
enqueue-Represents m fd h q cs rep new = elim (Bool-cases (leb_ℤ q.capacity q.size)) [
  | inl full ↦
      (failure, h, q, cs, enqueue-full m fd h q full, rep, refl, rw (sym (guard h q cs rep) ∙ full))
  | inr room ↦ elim (Option-cases m) [
    | inl null ↦ (
      failure,
      h,
      q,
      cs,
      enqueue-null m fd h q room null,
      rep,
      refl,
      rw (sym (guard h q cs rep) ∙ room, null),
    )
    | inr (a, e) ↦
        let (h', q', linked, cap, rep') = link-Represents h q a fd cs rep (new a e) in
        (
          success,
          h',
          q',
          cs ++ (a, fd) ∷ [],
          enqueue-link m fd h q a h' q' room e linked,
          rep',
          cap,
          rw (sym (guard h q cs rep) ∙ room, e, fds-append cs a fd),
        )
  ]
]

dequeue-front :
    (h : Heap) (q : ThreadQueue) (a : ℕ) (n : QueueNode)
    → q.front ≡ some a
    → h a ≡ some n
    → dequeue h q ≡ some (some n.client_fd, free a h, advance n q)
unfolding dequeue
dequeue-front h q a n e en = ground arith

rear-tail :
    (rear : Option ℕ) (a : ℕ) (fd : ℤ) (cs : Cells)
    → rear ≡ last ((a, fd) ∷ cs)
    → elim (first cs) [ none ↦ none | some _ ↦ rear ] ≡ last cs
rear-tail rear a fd [] e = refl
rear-tail rear a fd (c ∷ cs) e = e

advance-Represents :
    (h : Heap) (q : ThreadQueue) (a : ℕ) (fd : ℤ) (cs : Cells)
    → Represents h q ((a, fd) ∷ cs)
    → Represents (free a h) (advance (record { client_fd = fd; next = first cs }) q) cs
unfolding advance
advance-Represents h q a fd cs rep = record {
  at_front = refl;
  at_rear = rear-tail q.rear a fd cs rep.at_rear;
  sized = shrunk _ _ rep.sized;
  distinct = rep.distinct.1;
  chain = Chain-free h a cs rep.distinct.0 rep.chain.1;
  owned = λ b out. unfold free in ground (arith, rep.owned b);
}

-- On a queue that holds some descriptors, dequeue never uses a bad pointer. It gives the oldest
-- descriptor and frees its node, or gives -1 exactly when there is none.
pub dequeue-Represents :
    (h : Heap) (q : ThreadQueue) (cs : Cells)
    → Represents h q cs
    → (h' : Heap) × (q' : ThreadQueue) × (cs' : Cells) × (dequeue h q
        ≡ some ((pop (fds cs)).0, h', q'))
      × Represents h' q' cs'
      × (q'.capacity ≡ q.capacity)
      × (fds cs' ≡ (pop (fds cs)).1)
dequeue-Represents h q [] rep = (h, q, [], unfold dequeue in rw rep.at_front, rep, refl, refl)
dequeue-Represents h q ((a, fd) ∷ cs) rep = (
  _,
  _,
  cs,
  dequeue-front h q a _ rep.at_front rep.chain.0,
  advance-Represents h q a fd cs rep,
  unfold advance in refl,
  refl,
)

free_nodes-Chain :
    (fuel : ℕ) (h : Heap) (cs : Cells)
    → length cs ≤ fuel
    → Distinct cs
    → Chain h cs
    → ((b : ℕ) → among b cs ≡ false → h b ≡ none)
    → (h' : Heap) × (free_nodes fuel (first cs) h ≡ some (fds cs, h')) × ((b : ℕ) → h' b ≡ none)
unfolding free_nodes
free_nodes-Chain fuel h [] enough d c owned = (h, refl, λ b. owned b refl)
free_nodes-Chain zero h ((a, fd) ∷ cs) enough d c owned = absurd (omega arith)
free_nodes-Chain (suc fuel) h ((a, fd) ∷ cs) enough (da, d) (e, c) owned =
    let (h', freed, clean) =
      free_nodes-Chain fuel (free a h) cs (omega arith) d (Chain-free h a cs da c)
        (λ b out. unfold free in ground (arith, owned b)) in
    (h', rw (e, freed), clean)

-- On a queue that holds some descriptors, cleanup_queue comes to an end (its loop has as many rounds as
-- there are nodes), closes exactly these descriptors, oldest first, frees every node, and leaves the
-- queue empty.
pub cleanup_queue-closes :
    (fuel : ℕ) (h : Heap) (q : ThreadQueue) (cs : Cells)
    → Represents h q cs
    → length cs ≤ fuel
    → (h' : Heap) × (q' : ThreadQueue) × (cleanup_queue fuel h q ≡ some (fds cs, h', q'))
      × Represents h' q' []
      × ((b : ℕ) → h' b ≡ none)
unfolding cleanup_queue
cleanup_queue-closes fuel h q cs rep enough =
    let (h', freed, clean) = free_nodes-Chain fuel h cs enough rep.distinct rep.chain rep.owned in
    (
      h',
      record q { front = none; rear = none; size = pos 0 },
      rw (ap (λ o. free_nodes fuel o h) rep.at_front ∙ freed, cleanup_queue) refl,
      record {
        at_front = refl;
        at_rear = refl;
        sized = refl;
        distinct = tt;
        chain = tt;
        owned = λ b out. clean b;
      },
      clean,
    )

-- The two theorems as predicates on the result.
abbrev pub Enqueued : ℤ → Bool → ℤ → List ℤ → Option (ℤ × Heap × ThreadQueue) → Type 0
Enqueued capacity allocated fd xs none = ⊥
Enqueued capacity allocated fd xs (some (code, h, q)) =
    (cs : Cells) × Represents h q cs
    × (q.capacity ≡ capacity)
    × ((code, fds cs) ≡ push capacity allocated fd xs)

abbrev pub Dequeued : ℤ → List ℤ → Option (Option ℤ × Heap × ThreadQueue) → Type 0
Dequeued capacity xs none = ⊥
Dequeued capacity xs (some (got, h, q)) =
    (cs : Cells) × Represents h q cs
    × (q.capacity ≡ capacity)
    × (got ≡ (pop xs).0)
    × (fds cs ≡ (pop xs).1)

pub enqueue-Enqueued :
    (m : Option ℕ) (fd : ℤ) (h : Heap) (q : ThreadQueue) (cs : Cells)
    → Represents h q cs
    → ((a : ℕ) → m ≡ some a → h a ≡ none)
    → Enqueued q.capacity (is_some m) fd (fds cs) (enqueue m fd h q)
enqueue-Enqueued m fd h q cs rep new =
    let (code, h', q', cs', e, rep', cap, p) = enqueue-Represents m fd h q cs rep new in
    rw e (cs', rep', cap, p)

pub dequeue-Dequeued :
    (h : Heap) (q : ThreadQueue) (cs : Cells)
    → Represents h q cs
    → Dequeued q.capacity (fds cs) (dequeue h q)
dequeue-Dequeued h q cs rep =
    let (h', q', cs', e, rep', cap, p) = dequeue-Represents h q cs rep in
    rw e (cs', rep', cap, refl, p)

pub push-success :
    (capacity : ℤ) (allocated : Bool) (fd : ℤ) (xs ys : List ℤ)
    → (success, ys) ≡ push capacity allocated fd xs
    → (leb_ℤ capacity (pos (length xs)) ≡ false) × (ys ≡ xs ++ fd ∷ [])
push-success capacity allocated fd xs ys e = ground arith

pub push-failure :
    (capacity : ℤ) (allocated : Bool) (fd : ℤ) (xs ys : List ℤ)
    → (failure, ys) ≡ push capacity allocated fd xs
    → ys ≡ xs
push-failure capacity allocated fd xs ys e = ground arith

pub pop-some : (fd : ℤ) (xs ys : List ℤ) → some fd ≡ (pop xs).0 → ys ≡ (pop xs).1 → xs ≡ fd ∷ ys
pop-some fd [] ys got rest = cc
pop-some fd (x ∷ xs) ys got rest = cc

-- init_queue makes an empty queue.
pub init_queue-Represents : (capacity : ℤ) → Represents nothing_allocated (init_queue capacity) []
unfolding init_queue
init_queue-Represents capacity = record {
  at_front = refl;
  at_rear = refl;
  sized = refl;
  distinct = tt;
  chain = tt;
  owned = λ b out. refl;
}
