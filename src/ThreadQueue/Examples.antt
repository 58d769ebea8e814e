-- ===== src/ThreadQueue/Examples.antt =====
-- 16_sockets/part2/consumer_producer: tests, and the theorems at concrete inputs.
use eltex_homeworks.Prelude.{
  false, ◌+◌, ℕ, ◌+◌, ◌≤◌, ◌≡◌, refl, none, some, Option, List, [], ◌∷◌, ◌++◌, arith, length,
  get_elem?,
}
use eltex_homeworks.Prelude.Int.{ℤ, pos, ◌+ℤ◌}
use eltex_homeworks.ThreadQueue.Queue.{
  QueueNode, Heap, nothing_allocated, write, ThreadQueue, init_queue, link, enqueue, dequeue,
  cleanup_queue,
}
use eltex_homeworks.ThreadQueue.Chain.{Cells, fds, Represents}
use eltex_homeworks.ThreadQueue.Fifo.{cleanup_queue-closes}
use eltex_homeworks.ThreadQueue.Server.{
  Server, boot, accept, take, post, wake, woken, Reach, started, then, max_nodes, Handler, arrived,
  posted, clean_up,
}
use eltex_homeworks.ThreadQueue.Invariant.{
  total, is_woken, is_posting, times_in, in_main, in_worker,
}
use eltex_homeworks.ThreadQueue.Shutdown.{Reach-signal_handler}
use eltex_homeworks.ThreadQueue.Order.{Reach-in_order, Reach-none_lost, Reach-semaphore}

abbrev node : QueueNode
node = record { client_fd = pos 7; next = none }

abbrev queue_of_one : ThreadQueue
queue_of_one = record { front = some 3; rear = some 3; size = pos 1; capacity = pos 20 }

-- Two clients are queued and one is taken.
abbrev taken_of : Option (ℤ × Heap × ThreadQueue) → Option ℤ
unfolding dequeue
taken_of none = none
taken_of (some (_, h, q)) = elim (dequeue h q) [ none ↦ none | some (fd, _, _) ↦ fd ]

abbrev again : Option (ℤ × Heap × ThreadQueue) → Option (ℤ × Heap × ThreadQueue)
unfolding enqueue
again none = none
again (some (_, h, q)) = enqueue (some 1) (pos 8) h q

oldest_first :
    taken_of (again (enqueue (some 0) (pos 7) nothing_allocated (init_queue (pos 20))))
    ≡ some (pos 7)
unfolding enqueue link write init_queue dequeue ◌+ℤ◌
oldest_first = refl

second_refused :
    taken_of (again (enqueue (some 0) (pos 7) nothing_allocated (init_queue (pos 1))))
    ≡ some (pos 7)
unfolding enqueue link write init_queue dequeue ◌+ℤ◌
second_refused = refl

-- A client has been accepted, queued and announced, and a worker is past sem_wait.
client_waits : (s : Server) × Reach s
unfolding boot enqueue link write init_queue ◌+ℤ◌
client_waits = (
  _,
  then
      (then (then (then started (accept (pos 7) refl)) (take (pos 7) 0 _ _ refl refl refl))
        (post refl))
      (wake 0 0 refl refl),
)

client_waits-woken : get_elem? client_waits.0.workers 0 ≡ some woken
unfolding client_waits boot
client_waits-woken = refl

-- A queue of one node.
one_node : Represents (write 3 node nothing_allocated) queue_of_one ((3, pos 7) ∷ [])
unfolding write
one_node = record {
  at_front = refl;
  at_rear = refl;
  sized = refl;
  distinct = (refl, tt);
  chain = (refl, tt);
  owned = λ b out. ground arith;
}

cleanup_queue-closes_example :
    (h' : Heap) × (q' : ThreadQueue) × (cleanup_queue 1
        (write 3 node nothing_allocated)
        queue_of_one
      ≡ some (pos 7 ∷ [], h', q'))
    × Represents h' q' []
    × ((b : ℕ) → h' b ≡ none)
cleanup_queue-closes_example =
    cleanup_queue-closes 1 (write 3 node nothing_allocated) queue_of_one ((3, pos 7) ∷ []) one_node
      (omega arith)

Reach-in_order_example :
    (cs : Cells) × Represents client_waits.0.heap client_waits.0.queue cs
    × (length cs ≤ 20)
    × (client_waits.0.queued ≡ client_waits.0.taken ++ fds cs)
Reach-in_order_example = Reach-in_order client_waits.0 client_waits.1

Reach-none_lost_example :
    (cs : Cells) × Represents client_waits.0.heap client_waits.0.queue cs
    × (times_in (pos 7) client_waits.0.accepts
        ≡ times_in (pos 7) client_waits.0.rejected
          + in_main (pos 7) client_waits.0.main
          + times_in (pos 7) (fds cs)
          + total (in_worker (pos 7)) client_waits.0.workers
          + times_in (pos 7) client_waits.0.closed)
Reach-none_lost_example = Reach-none_lost client_waits.0 (pos 7) client_waits.1

Reach-semaphore_example :
    client_waits.0.queue.size
    ≡ pos (
        client_waits.0.semaphore
        + is_posting client_waits.0.main
        + total is_woken client_waits.0.workers)
Reach-semaphore_example = Reach-semaphore client_waits.0 client_waits.1

-- Nothing else happens while the semaphore is posted.
abbrev signalled : Server
signalled = record client_waits.0 { semaphore = client_waits.0.semaphore + 1 + 1 + 1 + 1 + 1 }

client_waits-signalled : Handler client_waits.0 5 signalled
client_waits-signalled = posted (posted (posted (posted (posted arrived))))

Reach-signal_handler_example :
    (waiting_fds : List ℤ) × (u : Server) × (clean_up max_nodes false signalled
      ≡ some (waiting_fds, u))
    × (signalled.queued ≡ signalled.taken ++ waiting_fds)
    × ((b : ℕ) → u.heap b ≡ none)
Reach-signal_handler_example =
    Reach-signal_handler client_waits.0 signalled client_waits.1 client_waits-signalled
