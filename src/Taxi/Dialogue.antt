-- ===== src/Taxi/Dialogue.antt =====
-- 22_fork_poll/main.c: what send_task and get_status print, and what the driver does meanwhile.
use eltex_homeworks.Prelude.{◌≡◌, ◌∙◌, some, ap, if◌then◌else◌}
use eltex_homeworks.Prelude.Int.{ℤ, pos, ◌≤ℤ◌, ◌+ℤ◌, leb_ℤ}
use eltex_homeworks.Taxi.Registry.{
  DriverInfo, Registry, available, busy, success, find_driver_by_pid,
}
use eltex_homeworks.Taxi.Driver.{Driver, Clock, accepted, occupied, idle, stay, refresh}
use eltex_homeworks.Taxi.Supervisor.{task_command, send_task, get_status}
use eltex_homeworks.Taxi.Session.{
  hear, pipes, announced, working, hear-available, hear-busy, hear-status, send_task-hear,
  get_status-hear, condition-refresh,
}

-- A positive task for a known driver that is available when its round begins: send_task succeeds and
-- prints "Driver <pid>: OK", and the driver works on exactly that task from its moment of acceptance
-- on, until the end of the round finds the time over.
pub send_task-available :
    (r : Registry) (pid : ℤ) (i : DriverInfo) (c : Clock) (d : Driver) (timer : ℤ)
    → find_driver_by_pid pid r.drivers ≡ some i
    → pos 1 ≤ℤ timer
    → (refresh c.head d).status ≡ available
    → (send_task (pipes c d) r pid timer ≡ (success, announced pid accepted))
      × (hear c d (task_command timer)
          ≡ stay (refresh c.tail (working c.task timer)) (some accepted))
send_task-available r pid i c d timer known positive free =
    let heard = hear-available c d timer free in
    (send_task-hear r pid i known c d timer _ accepted positive heard, heard)

-- A positive task for a known driver whose task is not over when its round begins: send_task succeeds
-- and prints "Driver <pid>: BUSY <timer of the task at work>", and that task is left as it is.
send_task-busy :
    (r : Registry) (pid : ℤ) (i : DriverInfo) (c : Clock) (d : Driver) (timer : ℤ)
    → find_driver_by_pid pid r.drivers ≡ some i
    → pos 1 ≤ℤ timer
    → d.status ≡ busy
    → ¬ (d.task_end_time ≤ℤ c.head)
    → (send_task (pipes c d) r pid timer ≡ (success, announced pid (occupied d.task_timer)))
      × (hear c d (task_command timer) ≡ stay (refresh c.tail d) (some (occupied d.task_timer)))
send_task-busy r pid i c d timer known positive at_work early =
    let heard = hear-busy c d timer at_work early in
    (send_task-hear r pid i known c d timer _ (occupied d.task_timer) positive heard, heard)

-- get_status on a driver that accepted a task of `timer` seconds at time `now`: it prints
-- "BUSY <timer>" in every round that begins before now + timer, and "AVAILABLE" in every later one.
get_status-working :
    (r : Registry) (pid : ℤ) (i : DriverInfo) (c : Clock) (now timer : ℤ)
    → find_driver_by_pid pid r.drivers ≡ some i
    → get_status (pipes c (working now timer)) r pid
      ≡ (success, announced pid (if leb_ℤ (now +ℤ timer) c.head then idle else occupied timer))
get_status-working r pid i c now timer known =
    get_status-hear r pid i known c (working now timer) _ _ (hear-status c (working now timer))
    ∙ ap (λ reply. (success, announced pid reply)) (condition-refresh now timer c.head)
