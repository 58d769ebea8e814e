-- ===== src/ThreadQueue/Chain.antt =====
-- 16_sockets/part2/consumer_producer/queue.c: the nodes of a linked queue, from front to rear.
use eltex_homeworks.Prelude.{
  ℕ, suc, ◌≡◌, refl, ap, ◌∙◌, Bool, true, false, ◌||◌, Option, none, some, List, [], ◌∷◌, ◌++◌,
  ◌==◌, arith, length,
}
use eltex_homeworks.Prelude.Int.{ℤ, pos}
use eltex_homeworks.ThreadQueue.Queue.{QueueNode, Heap, write, free, ThreadQueue}

-- A node's address and its descriptor.
abbrev pub Cells : Type 0
Cells = List (ℕ × ℤ)

abbrev pub first : Cells → Option ℕ
first [] = none
first ((a, fd) ∷ cs) = some a

abbrev pub last : Cells → Option ℕ
last [] = none
last ((a, fd) ∷ []) = some a
last (_ ∷ c ∷ cs) = last (c ∷ cs)

abbrev pub fds : Cells → List ℤ
fds [] = []
fds ((a, fd) ∷ cs) = fd ∷ fds cs

abbrev pub among : ℕ → Cells → Bool
among b [] = false
among b ((a, fd) ∷ cs) = (b == a) || among b cs

abbrev pub Distinct : Cells → Type 0
Distinct [] = Unit {0}
Distinct ((a, fd) ∷ cs) = (among a cs ≡ false) × Distinct cs

abbrev pub Chain : Heap → Cells → Type 0
Chain h [] = Unit {0}
Chain h ((a, fd) ∷ cs) = (h a ≡ some (record { client_fd = fd; next = first cs })) × Chain h cs

-- The queue consists of these nodes, and nothing else is allocated.
pub record Represents (h : Heap) (q : ThreadQueue) (cs : Cells) : Type 0 where
  pub at_front : q.front ≡ first cs
  pub at_rear : q.rear ≡ last cs
  pub sized : q.size ≡ pos (length cs)
  pub distinct : Distinct cs
  pub chain : Chain h cs
  pub owned : (b : ℕ) → among b cs ≡ false → h b ≡ none

pub fds-append : (cs : Cells) (a : ℕ) (fd : ℤ) → fds (cs ++ (a, fd) ∷ []) ≡ fds cs ++ fd ∷ []
fds-append [] a fd = refl
fds-append (c ∷ cs) a fd = rw (fds-append cs a fd)

pub length-snoc : (cs : Cells) (a : ℕ) (fd : ℤ) → length (cs ++ (a, fd) ∷ []) ≡ suc (length cs)
length-snoc [] a fd = refl
length-snoc (c ∷ cs) a fd = ap suc (length-snoc cs a fd)

pub length-fds : (cs : Cells) → length (fds cs) ≡ length cs
length-fds [] = refl
length-fds (c ∷ cs) = omega (arith, length-fds cs)

pub among-append :
    (b : ℕ) (cs : Cells) (a : ℕ) (fd : ℤ) → among b (cs ++ (a, fd) ∷ []) ≡ among b cs || (b == a)
among-append b [] a fd = ground arith
among-append b (c ∷ cs) a fd = ground (arith, among-append b cs a fd)

pub among-snoc :
    (b : ℕ) (cs : Cells) (a : ℕ) (fd : ℤ)
    → among b (cs ++ (a, fd) ∷ []) ≡ false
    → ((b == a) ≡ false) × (among b cs ≡ false)
among-snoc b [] a fd out = (ground arith, refl)
among-snoc b ((x, fx) ∷ cs) a fd out =
    let (ne, out') = among-snoc b cs a fd (ground arith) in (ne, ground arith)

pub among-last : (r : ℕ) (cs : Cells) → last cs ≡ some r → among r cs ≡ true
among-last r [] h = cc
among-last r ((a, fd) ∷ []) h = ground arith
among-last r ((a, fd) ∷ c ∷ cs) h = ground (arith, among-last r (c ∷ cs) h)

pub last-append : (cs : Cells) (a : ℕ) (fd : ℤ) → last (cs ++ (a, fd) ∷ []) ≡ some a
last-append [] a fd = refl
last-append (c ∷ []) a fd = refl
last-append (c ∷ d ∷ cs) a fd = last-append (d ∷ cs) a fd

pub Distinct-append :
    (cs : Cells) (a : ℕ) (fd : ℤ) → Distinct cs → among a cs ≡ false → Distinct (cs ++ (a, fd) ∷ [])
Distinct-append [] a fd d out = (refl, tt)
Distinct-append ((b, fb) ∷ cs) a fd (db, d) out =
    (ground (arith, among-append b cs a fd), Distinct-append cs a fd d (ground arith))

-- Writing and freeing elsewhere leave the chain as it is.
Chain-write :
    (h : Heap) (a : ℕ) (n : QueueNode) (cs : Cells)
    → among a cs ≡ false
    → Chain h cs
    → Chain (write a n h) cs
unfolding write
Chain-write h a n [] out c = tt
Chain-write h a n ((b, fd) ∷ cs) out (e, c) = (ground arith, Chain-write h a n cs (ground arith) c)

pub Chain-free :
    (h : Heap) (a : ℕ) (cs : Cells) → among a cs ≡ false → Chain h cs → Chain (free a h) cs
unfolding free
Chain-free h a [] out c = tt
Chain-free h a ((b, fd) ∷ cs) out (e, c) = (ground arith, Chain-free h a cs (ground arith) c)

pub fresh-among : (h : Heap) (a : ℕ) (cs : Cells) → Chain h cs → h a ≡ none → among a cs ≡ false
fresh-among h a [] c e = refl
fresh-among h a ((b, fd) ∷ cs) (eb, c) e = ground (arith, fresh-among h a cs c e)

pub apart : (a b : ℕ) (cs : Cells) → among a cs ≡ false → among b cs ≡ true → (b == a) ≡ false
apart a b [] out in_it = cc
apart a b ((x, fd) ∷ cs) out in_it = ground (arith, apart a b cs)

pub write-write_other :
    (h : Heap) (a r b : ℕ) (m n : QueueNode)
    → (b == a) ≡ false
    → (r == b) ≡ false
    → write r n (write a m h) b ≡ h b
unfolding write
write-write_other h a r b m n ea er = ground arith

-- The last node is linked to a new one.
pub Chain-link :
    (h : Heap) (a r : ℕ) (fd : ℤ) (cs : Cells)
    → last cs ≡ some r
    → among a cs ≡ false
    → Distinct cs
    → Chain h cs
    → (n : QueueNode) × (h r ≡ some n)
      × Chain
          (write r
            (record n { next = some a })
            (write a (record { client_fd = fd; next = none }) h))
          (cs ++ (a, fd) ∷ [])
unfolding write
Chain-link h a r fd [] at out d c = cc
Chain-link h a r fd ((b, fb) ∷ []) at out d (e, c) =
    (record { client_fd = fb; next = none }, ground arith, (ground arith, (ground arith, tt)))
Chain-link h a r fd ((b, fb) ∷ (b', fb') ∷ cs) at out (db, d) (e, c) =
    let (n, en, c') = Chain-link h a r fd ((b', fb') ∷ cs) at (ground arith) d c in
    (
      n,
      en,
      (
        write-write_other h a r b _ _ (ground arith)
              (apart b r ((b', fb') ∷ cs) db (among-last r ((b', fb') ∷ cs) at))
            ∙ e,
        c',
      ),
    )

pub last-cons : (c : ℕ × ℤ) (cs : Cells) → (r : ℕ) × (last (c ∷ cs) ≡ some r)
last-cons (a, fd) [] = (a, refl)
last-cons c (d ∷ cs) = last-cons d cs
