-- ===== src/Taxi/Requests.antt =====
-- 22_fork_poll/main.c: the lines that main accepts, printed and parsed.
use eltex_homeworks.Prelude.{
  ◌^◌, ◌≤◌, ◌<◌, ◌≡◌, refl, ap, ap₂, ◌∙◌, some, [], ◌∷◌, ◌++◌, length, take_all, arith,
}
use eltex_homeworks.Prelude.Int.{ℤ, pos, negsuc}
use eltex_homeworks.Libc.Text.{
  Text, codes, starts_with, strip, cut_at, HasNo, HasNo-occurs, HasNo-append, cut_at-append,
}
use eltex_homeworks.Libc.Decimal.{
  print_int, scan_int, scan_int-print_int, scan_int-space, scan_int-print_int_end, print_int-HasNo,
}
use eltex_homeworks.Taxi.Driver.{to_int}
use eltex_homeworks.Taxi.Supervisor.{task, status, max_line, scan_send, scan_status, parse_request}

-- The line "send_task <pid> <timer>" as it is typed, with its newline.
abbrev pub send_line : ℤ → ℤ → Text
send_line pid timer = codes "send_task " ++ (print_int pid ++ 32 ∷ print_int timer) ++ 10 ∷ []

abbrev pub status_line : ℤ → Text
status_line pid = codes "get_status " ++ print_int pid ++ 10 ∷ []

plain : (z : ℤ) → HasNo 10 (print_int z)
plain = print_int-HasNo 10 refl refl

-- What fits into an int.
abbrev pub IsInt : ℤ → Type 0
IsInt (pos n) = n < 2 ^ 31
IsInt (negsuc n) = n < 2 ^ 31

to_int-IsInt : (z : ℤ) → IsInt z → to_int z ≡ z
unfolding to_int
to_int-IsInt (pos n) h = ground arith
to_int-IsInt (negsuc n) h = ground arith

-- The text between the command's name and the newline.
numbers : ℤ → ℤ → Text
numbers pid timer = print_int pid ++ 32 ∷ print_int timer

scan_send_lem :
    (pid timer : ℤ)
    → scan_send (codes "send_task " ++ numbers pid timer) ≡ task (to_int pid) (to_int timer)
unfolding scan_send strip numbers
scan_send_lem pid timer =
    let first : scan_int (32 ∷ (print_int pid ++ 32 ∷ print_int timer))
        ≡ some (pid, 32 ∷ print_int timer) =
      scan_int-space _ ∙ scan_int-print_int pid (32 ∷ print_int timer) refl in
    let second : scan_int (32 ∷ print_int timer) ≡ some (timer, []) =
      scan_int-space _ ∙ scan_int-print_int_end timer in
    rw (first, scan_send) (rw second)

scan_status_lem :
    (pid : ℤ) → scan_status (codes "get_status " ++ print_int pid) ≡ status (to_int pid)
unfolding scan_status strip
scan_status_lem pid =
    let e : scan_int (32 ∷ print_int pid) ≡ some (pid, []) =
      scan_int-space _ ∙ scan_int-print_int_end pid in
    rw (e, scan_status)

send_line-cut :
    (pid timer : ℤ) → cut_at 10 (send_line pid timer) ≡ codes "send_task " ++ numbers pid timer
unfolding numbers
send_line-cut pid timer = cut_at-append 10 (codes "send_task " ++ numbers pid timer) [] (
    HasNo-append 10 (codes "send_task ") _ (HasNo-occurs 10 (codes "send_task ") refl)
      (HasNo-append 10 (print_int pid) _ (plain pid) (refl, plain timer)))

status_line-cut : (pid : ℤ) → cut_at 10 (status_line pid) ≡ codes "get_status " ++ print_int pid
status_line-cut pid = cut_at-append 10 (codes "get_status " ++ print_int pid) [] (
    HasNo-append 10 (codes "get_status ") _ (HasNo-occurs 10 (codes "get_status ") refl)
      (plain pid))

-- From the line "send_task <pid> <timer>", with a pid and a timer that fit into an int and a line that fits
-- into the buffer, main reads exactly the pid and the timer that were typed, whatever their signs.
pub parse_request-send_line :
    (pid timer : ℤ)
    → IsInt pid
    → IsInt timer
    → length (send_line pid timer) ≤ max_line
    → parse_request (send_line pid timer) ≡ task pid timer
unfolding parse_request starts_with
parse_request-send_line pid timer p t short =
    rw (take_all max_line (send_line pid timer) short, send_line-cut pid timer, parse_request)
      (scan_send_lem pid timer)
    ∙ ap₂ task (to_int-IsInt pid p) (to_int-IsInt timer t)

parse_request-status_line :
    (pid : ℤ)
    → IsInt pid
    → length (status_line pid) ≤ max_line
    → parse_request (status_line pid) ≡ status pid
unfolding parse_request starts_with
parse_request-status_line pid p short =
    rw (take_all max_line (status_line pid) short, status_line-cut pid, parse_request)
      (scan_status_lem pid)
    ∙ ap status (to_int-IsInt pid p)
