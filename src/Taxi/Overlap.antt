-- ===== src/Taxi/Overlap.antt =====
-- 22_fork_poll/main.c, driver_process: the tasks that one driver accepts, over any run of its loop.
use eltex_homeworks.Prelude.{true, false, ◌≡◌, subst, Option, none, some, List, [], ◌∷◌, arith}
use eltex_homeworks.Prelude.Int.{ℤ, pos, ◌≤ℤ◌}
use eltex_homeworks.Libc.Text.{Text}
use eltex_homeworks.Taxi.Registry.{available}
use eltex_homeworks.Taxi.Driver.{
  Driver, start, read_failed, read_bytes, Poll, poll_failed, poll_timeout, poll_event, Clock, Reply,
  accepted, occupied, idle, Outcome, stay, leave, refresh, take_task, tell_status, handle_command,
  handle_read, handle_poll, at_tail, round,
}

-- The accepted tasks of a run, as (time of acceptance, end of the task).
abbrev pub note : Clock → Driver → Option Reply → List (ℤ × ℤ) → List (ℤ × ℤ)
note c d (some accepted) log = (c.task, d.task_end_time) ∷ log
note c d _ log = log

resume : Clock → (Driver → List (ℤ × ℤ)) → Outcome → List (ℤ × ℤ)
resume c later (stay d reply) = note c d reply (later d)
resume c later leave = []

unfoldable pub task_log : Driver → List (Clock × Poll) → List (ℤ × ℤ)
unfolding resume
task_log d [] = []
task_log d ((c, p) ∷ rounds) = resume c (λ d'. task_log d' rounds) (round c p d)

-- The clock never goes back, from `t` on.
abbrev pub Chronological : ℤ → List (Clock × Poll) → Type 0
Chronological t [] = Unit {0}
Chronological t ((c, p) ∷ rounds) =
    (t ≤ℤ c.head) × (c.head ≤ℤ c.task) × (c.task ≤ℤ c.tail) × Chronological c.tail rounds

-- Each task starts at or after the end of the one before it, the first one at or after `e`.
abbrev pub Spaced : ℤ → List (ℤ × ℤ) → Type 0
Spaced e [] = Unit {0}
Spaced e ((begin, finish) ∷ log) = (e ≤ℤ begin) × Spaced finish log

-- An available driver has no task that lasts beyond `t`.
abbrev IsReady : ℤ → Driver → Type 0
IsReady t d = d.status ≡ available → d.task_end_time ≤ℤ t

abbrev Fits : Clock → ℤ → Outcome → Type 0
Fits c e leave = Unit {0}
Fits c e (stay d (some accepted)) = (e ≤ℤ c.task) × IsReady c.tail d
Fits c e (stay d (some (occupied _))) = (d.task_end_time ≡ e) × IsReady c.tail d
Fits c e (stay d (some idle)) = (d.task_end_time ≡ e) × IsReady c.tail d
Fits c e (stay d none) = (d.task_end_time ≡ e) × IsReady c.tail d

refresh-end : (now : ℤ) (d : Driver) → (refresh now d).task_end_time ≡ d.task_end_time
unfolding refresh
refresh-end now d = ground arith

refresh-IsReady : (t now : ℤ) (d : Driver) → t ≤ℤ now → IsReady t d → IsReady now (refresh now d)
unfolding refresh
refresh-IsReady t now d le r = ground arith

module _ (c : Clock) (h : c.head ≤ℤ c.task) (k : c.task ≤ℤ c.tail) where
  refresh-Fits :
      (d : Driver) (reply : Option Reply) (e : ℤ)
      → Fits (record c { tail = c.task }) e (stay d reply)
      → Fits c e (stay (refresh c.tail d) reply)
  unfolding refresh
  refresh-Fits d none e f = ground arith
  refresh-Fits d (some accepted) e f = ground arith
  refresh-Fits d (some _) e f = ground arith

  take_task-Fits :
      (d : Driver) (timer : ℤ)
      → IsReady c.head d
      → Fits (record c { tail = c.task }) d.task_end_time (take_task c.task timer d)
  unfolding take_task
  take_task-Fits d timer r = ground arith

  handle_command-Fits :
      (d : Driver) (buffer : Text)
      → IsReady c.head d
      → Fits (record c { tail = c.task }) d.task_end_time (handle_command c.task buffer d)
  unfolding handle_command take_task tell_status
  handle_command-Fits d buffer r = ground (arith, take_task-Fits d)

  handle_poll-Fits :
      (d : Driver) (p : Poll)
      → IsReady c.head d
      → Fits (record c { tail = c.task }) d.task_end_time (handle_poll c.task p d)
  unfolding handle_poll handle_read
  handle_poll-Fits d poll_failed r = ground arith
  handle_poll-Fits d poll_timeout r = ground arith
  handle_poll-Fits d (poll_event false _) r = ground arith
  handle_poll-Fits d (poll_event true read_failed) r = ground arith
  handle_poll-Fits d (poll_event true (read_bytes [])) r = ground arith
  handle_poll-Fits d (poll_event true (read_bytes (x ∷ s))) r = handle_command-Fits d (x ∷ s) r

  at_tail-Fits :
      (o : Outcome) (e : ℤ) → Fits (record c { tail = c.task }) e o → Fits c e (at_tail c.tail o)
  unfolding at_tail
  at_tail-Fits leave e f = tt
  at_tail-Fits (stay d reply) e f = refresh-Fits d reply e f

  round-Fits :
      (d : Driver) (p : Poll) (t : ℤ)
      → t ≤ℤ c.head
      → IsReady t d
      → Fits c d.task_end_time (round c p d)
  unfolding round
  round-Fits d p t le r = at_tail-Fits (handle_poll c.task p (refresh c.head d)) d.task_end_time (
      subst (λ e. Fits (record c { tail = c.task }) e (handle_poll c.task p (refresh c.head d)))
        (refresh-end c.head d)
        (handle_poll-Fits (refresh c.head d) p (refresh-IsReady t c.head d le r)))

resume-Spaced :
    (c : Clock) (e : ℤ) (later : Driver → List (ℤ × ℤ)) (o : Outcome)
    → Fits c e o
    → ((d : Driver) → IsReady c.tail d → Spaced d.task_end_time (later d))
    → Spaced e (resume c later o)
unfolding resume
resume-Spaced c e later leave f rest = tt
resume-Spaced c e later (stay d (some accepted)) f rest = (f.0, rest d f.1)
resume-Spaced c e later (stay d (some (occupied _))) f rest = rw (← f.0) (rest d f.1)
resume-Spaced c e later (stay d (some idle)) f rest = rw (← f.0) (rest d f.1)
resume-Spaced c e later (stay d none) f rest = rw (← f.0) (rest d f.1)

task_log-Spaced :
    (rounds : List (Clock × Poll)) (d : Driver) (t : ℤ)
    → Chronological t rounds
    → IsReady t d
    → Spaced d.task_end_time (task_log d rounds)
unfolding task_log
task_log-Spaced [] d t h r = tt
task_log-Spaced ((c, p) ∷ rounds) d t h r =
    resume-Spaced c d.task_end_time (λ d'. task_log d' rounds) (round c p d)
      (round-Fits c h.1 h.2 d p t h.0 r) λ d' ready. task_log-Spaced rounds d' c.tail h.3 ready

-- A driver process works on one task at a time: whatever poll and read give in the rounds of its loop,
-- as long as the clock starts at 0 or later and never goes back, each task that it accepts is accepted
-- at or after the end of the task that it accepted before.
pub start-Spaced :
    (rounds : List (Clock × Poll))
    → Chronological (pos 0) rounds
    → Spaced (pos 0) (task_log start rounds)
start-Spaced rounds h = task_log-Spaced rounds start (pos 0) h (λ _. omega arith)
