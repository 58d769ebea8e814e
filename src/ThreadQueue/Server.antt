-- ===== src/ThreadQueue/Server.antt =====
-- 16_sockets/part2/consumer_producer/server.c: the accept loop of main and the worker threads, as steps
-- on what they share. A step of enqueue or dequeue is its body between lock and unlock; sem_wait and
-- sem_post are steps of their own.
use eltex_homeworks.Prelude.{
  ℕ, suc, ◌+◌, ◌≡◌, Bool, true, false, Option, none, some, List, [], ◌∷◌, ◌++◌, get_elem?, set,
  replicate,
}
use eltex_homeworks.Prelude.Int.{ℤ, pos}
use eltex_homeworks.ThreadQueue.Queue.{
  Heap, nothing_allocated, ThreadQueue, success, failure, init_queue, enqueue, dequeue,
  cleanup_queue,
}

abbrev pub max_threads : ℕ
max_threads = 5

abbrev pub queue_size : ℤ
queue_size = pos 20

-- Where main stands in its loop.
pub data Main : Type 0 where
  accepting : Main
  accepted : ℤ → Main  -- before enqueue
  posting : Main  -- before sem_post of enqueue
  rejecting : ℤ → Main  -- before close of the rejected client

-- Where a worker thread stands in its loop.
pub data Worker : Type 0 where
  waiting : Worker  -- before sem_wait of dequeue
  woken : Worker  -- before the body of dequeue
  serving : ℤ → Worker  -- in handle_client

-- The ghost fields `queued`, `taken`, `rejected` and `closed` list descriptors in the order in which
-- enqueue took them, dequeue gave them, main closed them and handle_client closed them.
pub record Server : Type 0 where
  pub heap : Heap
  pub queue : ThreadQueue
  pub semaphore : ℕ
  pub main : Main
  pub workers : List Worker
  pub accepts : List ℤ
  pub queued : List ℤ
  pub taken : List ℤ
  pub rejected : List ℤ
  pub closed : List ℤ

-- main before its loop: every worker has been created.
unfoldable pub boot : Server
boot = record {
  heap = nothing_allocated;
  queue = init_queue queue_size;
  semaphore = 0;
  main = accepting;
  workers = replicate max_threads waiting;
  accepts = [];
  queued = [];
  taken = [];
  rejected = [];
  closed = [];
}

-- One step of main or of the worker `i`.
pub data Step (s : Server) : Server → Type 0 where
  -- accept gives a descriptor; with -1 the loop goes on without a change
  accept :
      (fd : ℤ)
      → s.main ≡ accepting
      → Step s (record s { main = accepted fd; accepts = s.accepts ++ fd ∷ [] })
  -- enqueue takes the client: malloc gives an address that is not in use
  take :
      (fd : ℤ) (a : ℕ) (h : Heap) (q : ThreadQueue)
      → s.main ≡ accepted fd
      → s.heap a ≡ none
      → enqueue (some a) fd s.heap s.queue ≡ some (success, h, q)
      → Step s (record s { heap = h; queue = q; main = posting; queued = s.queued ++ fd ∷ [] })
  -- enqueue refuses the client, because the queue is full or malloc fails
  refuse :
      (fd : ℤ) (m : Option ℕ) (h : Heap) (q : ThreadQueue)
      → s.main ≡ accepted fd
      → ((a : ℕ) → m ≡ some a → s.heap a ≡ none)
      → enqueue m fd s.heap s.queue ≡ some (failure, h, q)
      → Step s (record s { heap = h; queue = q; main = rejecting fd })
  post : s.main ≡ posting → Step s (record s { main = accepting; semaphore = s.semaphore + 1 })
  reject :
      (fd : ℤ)
      → s.main ≡ rejecting fd
      → Step s (record s { main = accepting; rejected = s.rejected ++ fd ∷ [] })
  -- sem_wait
  wake :
      (i n : ℕ)
      → get_elem? s.workers i ≡ some waiting
      → s.semaphore ≡ suc n
      → Step s (record s { workers = set s.workers i woken; semaphore = n })
  -- dequeue gives a client
  serve :
      (i : ℕ) (fd : ℤ) (h : Heap) (q : ThreadQueue)
      → get_elem? s.workers i ≡ some woken
      → dequeue s.heap s.queue ≡ some (some fd, h, q)
      → Step s (record s {
        heap = h;
        queue = q;
        workers = set s.workers i (serving fd);
        taken = s.taken ++ fd ∷ [];
      })
  -- dequeue finds the queue empty: the loop goes on
  miss :
      (i : ℕ) (h : Heap) (q : ThreadQueue)
      → get_elem? s.workers i ≡ some woken
      → dequeue s.heap s.queue ≡ some (none, h, q)
      → Step s (record s { heap = h; queue = q; workers = set s.workers i waiting })
  -- the end of handle_client
  finish :
      (i : ℕ) (fd : ℤ)
      → get_elem? s.workers i ≡ some (serving fd)
      → Step s (record s { workers = set s.workers i waiting; closed = s.closed ++ fd ∷ [] })

-- The states that the server can reach.
pub data Reach : Server → Type 0 where
  started : Reach boot
  then : {s t : Server} → Reach s → Step s t → Reach t

-- The nodes that a full queue has.
abbrev pub max_nodes : ℕ
max_nodes = 20

-- signal_handler from the state in which the signal arrives: after `n` of its sem_posts the server is in the
-- second state. The threads that are not interrupted go on meanwhile. (is_running, which it clears, only
-- ends the loops of workers: they do fewer steps.)
pub data Handler (s : Server) : ℕ → Server → Type 0 where
  arrived : Handler s 0 s
  posted :
      {n : ℕ} {t : Server}
      → Handler s n t
      → Handler s (suc n) (record t { semaphore = t.semaphore + 1 })
  meanwhile : {n : ℕ} {t u : Server} → Handler s n t → Step t u → Handler s n u

-- Its call of cleanup_queue in the state in which it gets the mutex, with at most `fuel` rounds. The result
-- has the clients that are closed. `own_lock`: the signal interrupts a thread that is between lock and
-- unlock of enqueue or dequeue; then the handler, which runs in that thread, waits for itself for ever.
unfoldable pub clean_up : ℕ → Bool → Server → Option (List ℤ × Server)
clean_up fuel true t = none
clean_up fuel false t = elim (cleanup_queue fuel t.heap t.queue) [
  | none ↦ none
  | some (closing, h, q) ↦ some (closing, record t { heap = h; queue = q })
]
