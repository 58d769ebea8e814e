-- ===== src/Taxi/Timeout.antt =====
-- 22_fork_poll/main.c, driver_process: the timeout in milliseconds that a busy driver gives to poll.
use eltex_homeworks.Prelude.{ℕ, ◌+◌, ◌*◌, ◌≤◌, ◌≡◌, ◌-◌, ◌^◌, arith, ap, ◌∙◌, false}
use eltex_homeworks.Prelude.Int.{ℤ, pos, negsuc, ◌+ℤ◌, ◌-ℤ◌, ◌*ℤ◌, int_laws, leb_ℤ}
use eltex_homeworks.Taxi.Registry.{busy}
use eltex_homeworks.Taxi.Driver.{Driver, timeout_of, to_int}

-- the longest time left, in seconds, whose milliseconds an int holds
abbrev pub longest : ℕ
longest = 2147483

later : (now : ℤ) (left : ℕ) → 1 ≤ left → leb_ℤ (now +ℤ pos left) now ≡ false
unfolding ◌+ℤ◌
later now left h = ground arith

left_eq : (e now : ℤ) (left : ℕ) → e ≡ now +ℤ pos left → e -ℤ now ≡ pos left
left_eq e now left h = rw h (omega int_laws)

milliseconds : (left : ℕ) → pos left *ℤ pos 1000 ≡ pos (left * 1000)
unfolding ◌*ℤ◌
milliseconds left = ground arith

timeout_of-left :
    (d : Driver) (now : ℤ) (left : ℕ)
    → d.status ≡ busy
    → d.task_end_time ≡ now +ℤ pos left
    → 1 ≤ left
    → timeout_of now d ≡ to_int (pos (left * 1000))
unfolding timeout_of
timeout_of-left d now left at_work ends some_left =
    let early : leb_ℤ d.task_end_time now ≡ false = rw ends (later now left some_left) in
    rw (at_work, early, timeout_of)
      (ap to_int
        (ap (λ z. z *ℤ pos 1000) (left_eq d.task_end_time now left ends) ∙ milliseconds left))

fits : (left : ℕ) → left ≤ longest → to_int (pos (left * 1000)) ≡ pos (left * 1000)
unfolding to_int
fits left short = ground arith

wraps :
    (left : ℕ)
    → longest + 1 ≤ left
    → left ≤ 4294967
    → to_int (pos (left * 1000)) ≡ negsuc (2 ^ 32 - left * 1000 - 1)
unfolding to_int
wraps left long bounded = ground arith

-- A busy driver with `left` seconds to go, 0 < left and at most `longest`, waits exactly that long.
timeout_of-exact :
    (d : Driver) (now : ℤ) (left : ℕ)
    → d.status ≡ busy
    → d.task_end_time ≡ now +ℤ pos left
    → 1 ≤ left
    → left ≤ longest
    → timeout_of now d ≡ pos (left * 1000)
timeout_of-exact d now left at_work ends some_left short =
    timeout_of-left d now left at_work ends some_left ∙ fits left short

-- With more seconds to go, up to 4294967, the product does not fit into an int: the timeout is
-- negative, and poll waits for the next command, also beyond the end of the task.
pub timeout_of-overflow :
    (d : Driver) (now : ℤ) (left : ℕ)
    → d.status ≡ busy
    → d.task_end_time ≡ now +ℤ pos left
    → longest + 1 ≤ left
    → left ≤ 4294967
    → timeout_of now d ≡ negsuc (2 ^ 32 - left * 1000 - 1)
timeout_of-overflow d now left at_work ends long bounded =
    timeout_of-left d now left at_work ends (omega arith) ∙ wraps left long bounded
