-- ===== src/Taxi/Examples.antt =====
-- 22_fork_poll/main.c: tests, and the theorems at concrete inputs.
use eltex_homeworks.Prelude.{
  ℕ, ◌^◌, ◌-◌, ◌*◌, ◌≡◌, refl, true, false, some, List, [], ◌∷◌, ◌++◌, arith,
}
use eltex_homeworks.Prelude.Int.{ℤ, pos, negsuc, ◌+ℤ◌}
use eltex_homeworks.Libc.Text.{codes, starts_with, strip, cut_at}
use eltex_homeworks.Libc.Decimal.{print_ℕ, print_int, scan_int}
use eltex_homeworks.Taxi.Registry.{
  DriverInfo, Registry, Kernel, available, busy, success, new_driver, close, register, with_pipes,
  find_driver_by_pid, create_driver, cleanup,
}
use eltex_homeworks.Taxi.Driver.{
  Driver, start, Clock, Poll, poll_event, read_bytes, accepted, stay, refresh, round, timeout_of,
  scan_task, take_task,
}
use eltex_homeworks.Taxi.Supervisor.{
  exit, task, task_usage, task_command, send_task, parse_request, scan_send,
}
use eltex_homeworks.Taxi.Session.{hear, pipes, announced, working}
use eltex_homeworks.Taxi.Dialogue.{send_task-available}
use eltex_homeworks.Taxi.Overlap.{Spaced, task_log, start-Spaced}
use eltex_homeworks.Taxi.Timeout.{timeout_of-overflow}
use eltex_homeworks.Taxi.Requests.{send_line, parse_request-send_line}
use eltex_homeworks.Taxi.Descriptors.{
  Created, SameFds, create_all, create_driver-Created, cleanup-create_all,
}

abbrev answers : Kernel
answers = record {
  first_pipe = some (record { read = 3; write = 4 });
  second_pipe = some (record { read = 5; write = 6 });
  fork = some (pos 421);
}

abbrev no_drivers : Registry
no_drivers = record { drivers = []; open_fds = 0 ∷ 1 ∷ 2 ∷ [] }

abbrev first_driver : DriverInfo
first_driver =
    new_driver (pos 421) (record { read = 3; write = 4 }) (record { read = 5; write = 6 })

abbrev one_driver : Registry
one_driver = record { drivers = first_driver ∷ []; open_fds = 5 ∷ 4 ∷ 0 ∷ 1 ∷ 2 ∷ [] }

one_driver_created : create_driver answers no_drivers ≡ (success, one_driver)
unfolding create_driver with_pipes register close
one_driver_created = refl

abbrev at : ℕ → Clock
at t = record { head = pos t; task = pos t; tail = pos t }

parses_exit : parse_request (codes "exit" ++ 10 ∷ []) ≡ exit
unfolding parse_request starts_with cut_at
parses_exit = refl

parses_no_timer : parse_request (codes "send_task 12" ++ 10 ∷ []) ≡ task_usage
unfolding parse_request starts_with cut_at scan_send strip scan_int
parses_no_timer = refl

-- Two tasks sent at 10 and 12, the first of 5 seconds: the second is refused, and taken at 15.
abbrev three_rounds : List (Clock × Poll)
three_rounds =
    (at 10, poll_event true (read_bytes (task_command (pos 5))))
    ∷ (at 12, poll_event true (read_bytes (task_command (pos 7))))
    ∷ (at 15, poll_event true (read_bytes (task_command (pos 7))))
    ∷ []

three_rounds_log : task_log start three_rounds ≡ (pos 10, pos 15) ∷ (pos 15, pos 22) ∷ []
unfolding task_log round task_command print_int scan_int strip starts_with scan_task take_task ◌+ℤ◌
three_rounds_log = refl

start-Spaced_example : Spaced (pos 0) (task_log start three_rounds)
start-Spaced_example = start-Spaced three_rounds (omega arith)

known_driver : find_driver_by_pid (pos 421) one_driver.drivers ≡ some first_driver
unfolding find_driver_by_pid
known_driver = refl

start_available : (refresh (pos 10) start).status ≡ available
unfolding refresh
start_available = refl

send_task-available_example :
    (send_task (pipes (at 10) start) one_driver (pos 421) (pos 5)
      ≡ (success, announced (pos 421) accepted))
    × (hear (at 10) start (task_command (pos 5))
        ≡ stay (refresh (pos 10) (working (pos 10) (pos 5))) (some accepted))
send_task-available_example =
    send_task-available one_driver (pos 421) first_driver (at 10) start (pos 5) known_driver
      (omega arith) start_available

abbrev working_until : ℤ → Driver
working_until e = record { status = busy; task_timer = pos 5; task_end_time = e }

timeout_of-overflow_example :
    timeout_of (pos 12) (working_until (pos 3000012)) ≡ negsuc (2 ^ 32 - 3000000 * 1000 - 1)
unfolding ◌+ℤ◌
timeout_of-overflow_example =
    timeout_of-overflow (working_until (pos 3000012)) (pos 12) 3000000 refl refl (omega arith)
      (omega arith)

parse_request-send_line_example :
    parse_request (send_line (pos 421) (pos 30)) ≡ task (pos 421) (pos 30)
unfolding print_int print_ℕ
parse_request-send_line_example =
    parse_request-send_line (pos 421) (pos 30) (omega arith) (omega arith) (omega arith)

create_driver-Created_example : Created answers no_drivers (create_driver answers no_drivers)
create_driver-Created_example = create_driver-Created answers no_drivers

cleanup-create_all_example :
    SameFds
      (cleanup
        (λ _. record { written = false; reaped = true })
        (create_all (answers ∷ []) no_drivers).drivers
        (create_all (answers ∷ []) no_drivers).open_fds
        success).1
      (0 ∷ 1 ∷ 2 ∷ [])
cleanup-create_all_example =
    cleanup-create_all (0 ∷ 1 ∷ 2 ∷ []) (answers ∷ [])
      (λ _. record { written = false; reaped = true })
