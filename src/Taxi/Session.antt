-- ===== src/Taxi/Session.antt =====
-- 22_fork_poll/main.c: a command of the supervisor carried through the pipes to a driver and back.
use eltex_homeworks.Prelude.{
  true, false, ◌≡◌, refl, ap, ◌∙◌, none, some, [], ◌∷◌, ◌++◌, arith, if◌then◌else◌,
}
use eltex_homeworks.Prelude.Int.{ℤ, pos, ◌≤ℤ◌, ◌+ℤ◌, leb_ℤ}
use eltex_homeworks.Libc.Text.{Text, codes, starts_with, strip}
use eltex_homeworks.Libc.Decimal.{print_int, scan_int, skip_spaces, scan_int-print_int}
use eltex_homeworks.Taxi.Registry.{
  DriverInfo, Registry, available, busy, success, find_driver_by_pid,
}
use eltex_homeworks.Taxi.Driver.{
  Driver, read_bytes, poll_timeout, poll_event, Clock, Reply, accepted, occupied, idle, render,
  Outcome, stay, leave, refresh, scan_task, take_task, tell_status, handle_command, handle_poll,
  at_tail, round,
}
use eltex_homeworks.Taxi.Supervisor.{
  Exchange, Output, read_response, send_command_to_driver, report, task_command, status_command,
  send_task, get_status,
}

-- The round in which a driver's poll finds the command in its pipe.
abbrev pub hear : Clock → Driver → Text → Outcome
hear c d command = round c (poll_event true (read_bytes command)) d

-- What the supervisor sees of it: the reply in the other pipe, silence, or the end of the stream.
abbrev pub seen : Outcome → Exchange
seen (stay _ (some reply)) = record {
  written = true;
  polled = poll_event true (read_bytes (render reply));
}
seen (stay _ none) = record { written = true; polled = poll_timeout }
seen leave = record { written = true; polled = poll_event false (read_bytes []) }

-- The pipes of a driver in state `d`.
abbrev pub pipes : Clock → Driver → DriverInfo → Text → Exchange
pipes c d _ command = seen (hear c d command)

-- What the supervisor prints for a reply of the driver `pid`.
abbrev pub announced : ℤ → Reply → Output
announced pid reply = (codes "Driver " ++ print_int pid ++ codes ": " ++ render reply) ∷ []

scan_task-task_command : (timer : ℤ) → scan_task (task_command timer) ≡ some timer
unfolding scan_task task_command strip
scan_task-task_command timer =
    let e : scan_int (32 ∷ print_int timer ++ 10 ∷ []) ≡ some (timer, 10 ∷ []) =
      unfold scan_int skip_spaces in scan_int-print_int timer (10 ∷ []) refl in
    rw (e, scan_task)

-- The driver reads from the command the timer that send_task has printed.
handle_command-task_command :
    (now timer : ℤ) (d : Driver) → handle_command now (task_command timer) d ≡ take_task now timer d
unfolding handle_command starts_with task_command
handle_command-task_command now timer d = rw (scan_task-task_command timer, handle_command)

handle_command-status_command :
    (now : ℤ) (d : Driver) → handle_command now status_command d ≡ tell_status d
unfolding handle_command starts_with
handle_command-status_command now d = refl

hear-task_command :
    (c : Clock) (d : Driver) (timer : ℤ)
    → hear c d (task_command timer) ≡ at_tail c.tail (take_task c.task timer (refresh c.head d))
unfolding round handle_poll task_command
hear-task_command c d timer =
    ap (at_tail c.tail) (handle_command-task_command c.task timer (refresh c.head d))

hear-status_command :
    (c : Clock) (d : Driver)
    → hear c d status_command ≡ at_tail c.tail (tell_status (refresh c.head d))
unfolding round handle_poll
hear-status_command c d =
    ap (at_tail c.tail) (handle_command-status_command c.task (refresh c.head d))

-- A reply comes back unchanged, for no reply is empty.
report-seen :
    (pid : ℤ) (i : DriverInfo) (d : Driver) (reply : Reply)
    → report pid (send_command_to_driver (seen (stay d (some reply))) i)
      ≡ (success, announced pid reply)
unfolding report send_command_to_driver read_response render
report-seen pid i d accepted = refl
report-seen pid i d (occupied t) = refl
report-seen pid i d idle = refl

-- The state of a driver that has accepted a task of `timer` seconds at time `now`.
abbrev pub working : ℤ → ℤ → Driver
working now timer = record { status = busy; task_timer = timer; task_end_time = now +ℤ timer }

module _ (r : Registry) (pid : ℤ) (i : DriverInfo)
    (known : find_driver_by_pid pid r.drivers ≡ some i) (c : Clock) (d : Driver) where
  pub send_task-hear :
      (timer : ℤ) (e : Driver) (reply : Reply)
      → pos 1 ≤ℤ timer
      → hear c d (task_command timer) ≡ stay e (some reply)
      → send_task (pipes c d) r pid timer ≡ (success, announced pid reply)
  unfolding send_task
  send_task-hear timer e reply h heard =
      let above : leb_ℤ timer (pos 0) ≡ false = ground arith in
      rw (above, known, send_task)
        (ap (λ o. report pid (send_command_to_driver (seen o) i)) heard ∙ report-seen pid i e reply)

  pub get_status-hear :
      (e : Driver) (reply : Reply)
      → hear c d status_command ≡ stay e (some reply)
      → get_status (pipes c d) r pid ≡ (success, announced pid reply)
  unfolding get_status
  get_status-hear e reply heard =
      rw (known, get_status)
        (ap (λ o. report pid (send_command_to_driver (seen o) i)) heard ∙ report-seen pid i e reply)

pub hear-available :
    (c : Clock) (d : Driver) (timer : ℤ)
    → (refresh c.head d).status ≡ available
    → hear c d (task_command timer) ≡ stay (refresh c.tail (working c.task timer)) (some accepted)
unfolding at_tail take_task
hear-available c d timer free = hear-task_command c d timer ∙ rw (free, take_task)

pub hear-busy :
    (c : Clock) (d : Driver) (timer : ℤ)
    → d.status ≡ busy
    → ¬ (d.task_end_time ≤ℤ c.head)
    → hear c d (task_command timer) ≡ stay (refresh c.tail d) (some (occupied d.task_timer))
unfolding at_tail take_task refresh
hear-busy c d timer working early = hear-task_command c d timer ∙ ground arith

-- What get_status says of a driver.
abbrev pub condition : Driver → Reply
condition d = elim d.status [ available ↦ idle | busy ↦ occupied d.task_timer ]

tell_status-tail :
    (now : ℤ) (e : Driver) → at_tail now (tell_status e) ≡ stay (refresh now e) (some (condition e))
unfolding at_tail tell_status
tell_status-tail now e = ground arith

pub hear-status :
    (c : Clock) (d : Driver)
    → hear c d status_command
      ≡ stay (refresh c.tail (refresh c.head d)) (some (condition (refresh c.head d)))
hear-status c d = hear-status_command c d ∙ tell_status-tail c.tail (refresh c.head d)

pub condition-refresh :
    (now timer t : ℤ)
    → condition (refresh t (working now timer))
      ≡ (if leb_ℤ (now +ℤ timer) t then idle else occupied timer)
unfolding refresh
condition-refresh now timer t = ground arith
