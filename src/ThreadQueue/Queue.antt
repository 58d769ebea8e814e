-- ===== src/ThreadQueue/Queue.antt =====
-- 16_sockets/part2/consumer_producer/queue.h and queue.c, the bodies between lock and unlock. The heap
-- is the node at each address; `none` as a result stands for the use of a NULL or dangling pointer.
use eltex_homeworks.Prelude.{ℕ, zero, suc, Option, none, some, List, [], ◌∷◌, if◌then◌else◌}
unfoldable pub use eltex_homeworks.Prelude.Memory.{write, free}
use eltex_homeworks.Prelude.Int.{ℤ, pos, negsuc, ◌+ℤ◌, ◌-ℤ◌, leb_ℤ}

pub record QueueNode : Type 0 where
  pub client_fd : ℤ
  pub next : Option ℕ

abbrev pub Heap : Type 0
Heap = ℕ → Option QueueNode

abbrev pub nothing_allocated : Heap
nothing_allocated b = none

-- The semaphore is counted by the server.
pub record ThreadQueue : Type 0 where
  pub front : Option ℕ
  pub rear : Option ℕ
  pub size : ℤ
  pub capacity : ℤ

abbrev pub success : ℤ
success = pos 0

abbrev pub failure : ℤ
failure = negsuc 0

unfoldable pub init_queue : ℤ → ThreadQueue
init_queue capacity = record { front = none; rear = none; size = pos 0; capacity = capacity }

-- Behind malloc: the new node is filled in and linked.
unfoldable pub link : ℕ → ℤ → Heap → ThreadQueue → Option (Heap × ThreadQueue)
link a fd h q =
    let h' = write a (record { client_fd = fd; next = none }) h in
    elim q.rear [
      | none ↦ some (h', record q { front = some a; rear = some a; size = q.size +ℤ pos 1 })
      | some r ↦ elim (h' r) [
        | none ↦ none
        | some n ↦ some (
          write r (record n { next = some a }) h',
          record q { rear = some a; size = q.size +ℤ pos 1 },
        )
      ]
    ]

-- `m` is the answer of malloc, `none` for NULL. The result is the code with the new state.
unfoldable pub enqueue : Option ℕ → ℤ → Heap → ThreadQueue → Option (ℤ × Heap × ThreadQueue)
enqueue m fd h q = if leb_ℤ q.capacity q.size then some (failure, h, q) else elim m [
  | none ↦ some (failure, h, q)
  | some a ↦ elim (link a fd h q) [ none ↦ none | some (h', q') ↦ some (success, h', q') ]
]

-- The queue behind its first node `temp`.
unfoldable pub advance : QueueNode → ThreadQueue → ThreadQueue
advance temp q = record q {
  front = temp.next;
  rear = elim temp.next [ none ↦ none | some _ ↦ q.rear ];
  size = q.size -ℤ pos 1;
}

-- Behind sem_wait: the descriptor that is stored in *client_fd, or `none` for the result -1, with the
-- new state.
unfoldable pub dequeue : Heap → ThreadQueue → Option (Option ℤ × Heap × ThreadQueue)
dequeue h q = elim q.front [
  | none ↦ some (none, h, q)
  | some a ↦ elim (h a) [
    | none ↦ none
    | some temp ↦ some (some temp.client_fd, free a h, advance temp q)
  ]
]

-- The loop of cleanup_queue from `front` on: the descriptors that it closes, in order, and the heap.
unfoldable pub free_nodes : ℕ → Option ℕ → Heap → Option (List ℤ × Heap)
free_nodes fuel none h = some ([], h)
free_nodes zero (some a) h = none
free_nodes (suc fuel) (some a) h = elim (h a) [
  | none ↦ none
  | some temp ↦ elim (free_nodes fuel temp.next (free a h)) [
    | none ↦ none
    | some (closed, h') ↦ some (temp.client_fd ∷ closed, h')
  ]
]

unfoldable pub cleanup_queue : ℕ → Heap → ThreadQueue → Option (List ℤ × Heap × ThreadQueue)
cleanup_queue fuel h q = elim (free_nodes fuel q.front h) [
  | none ↦ none
  | some (closed, h') ↦ some (closed, h', record q { front = none; rear = none; size = pos 0 })
]
