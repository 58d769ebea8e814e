-- ===== src/Taxi/Driver.antt =====
-- 22_fork_poll/main.c: driver_process, the loop of a driver. One round takes what the clock, poll and
-- read answer in it, and gives the new state and what is written to the supervisor.
use eltex_homeworks.Prelude.{
  ℕ, ◌-◌, ◌%◌, ◌^◌, Bool, true, false, Option, none, some, [], ◌∷◌, ◌++◌, ltb, if◌then◌else◌,
}
use eltex_homeworks.Prelude.Int.{ℤ, pos, negsuc, ◌+ℤ◌, ◌-ℤ◌, ◌*ℤ◌, leb_ℤ}
use eltex_homeworks.Libc.Text.{Text, codes, starts_with, strip}
use eltex_homeworks.Libc.Decimal.{print_int, scan_int}
use eltex_homeworks.Taxi.Registry.{DriverStatus, available, busy}

pub record Driver : Type 0 where
  pub status : DriverStatus
  pub task_timer : ℤ
  pub task_end_time : ℤ

abbrev pub start : Driver
start = record { status = available; task_timer = pos 0; task_end_time = pos 0 }

-- What read gives: -1, or the bytes read (none at the end of the stream).
pub data ReadResult : Type 0 where
  read_failed : ReadResult
  read_bytes : Text → ReadResult

-- What poll gives: -1, 0, or an event, with POLLIN set or not and what the read then finds.
pub data Poll : Type 0 where
  poll_failed poll_timeout : Poll
  poll_event : Bool → ReadResult → Poll

-- The readings of time(NULL) in one round: before poll, at an accepted task, and at the end.
pub record Clock : Type 0 where
  pub head : ℤ
  pub task : ℤ
  pub tail : ℤ

pub data Reply : Type 0 where
  accepted : Reply
  occupied : ℤ → Reply
  idle : Reply

-- The text that is written for a reply.
unfoldable pub render : Reply → Text
render accepted = codes "OK" ++ 10 ∷ []
render (occupied t) = codes "BUSY " ++ print_int t ++ 10 ∷ []
render idle = codes "AVAILABLE" ++ 10 ∷ []

-- A busy driver whose time is over is available again (both at the head and at the end of a round).
unfoldable pub refresh : ℤ → Driver → Driver
refresh now d = elim d.status [
  | available ↦ d
  | busy ↦
      if leb_ℤ d.task_end_time now then record d { status = available; task_timer = pos 0 } else d
]

-- The conversion of a long to int: the low 32 bits, as a signed number.
abbrev pub signed32 : ℕ → ℤ
signed32 m = if ltb m (2 ^ 31) then pos m else negsuc (2 ^ 32 - m - 1)

unfoldable pub to_int : ℤ → ℤ
to_int (pos n) = signed32 (n % 2 ^ 32)
to_int (negsuc n) = signed32 (2 ^ 32 - 1 - n % 2 ^ 32)

-- The timeout that is given to poll, in milliseconds; -1 waits for ever.
unfoldable pub timeout_of : ℤ → Driver → ℤ
timeout_of now d = elim d.status [
  | available ↦ negsuc 0
  | busy ↦
      if leb_ℤ d.task_end_time now then negsuc 0 else to_int ((d.task_end_time -ℤ now) *ℤ pos 1000)
]

-- How a round goes on: with a new state and perhaps a reply, or out of the loop.
pub data Outcome : Type 0 where
  stay : Driver → Option Reply → Outcome
  leave : Outcome

-- sscanf(buffer, "SEND_TASK %d", &timer)
unfoldable pub scan_task : Text → Option ℤ
scan_task buffer = elim (strip (codes "SEND_TASK") buffer) [
  | none ↦ none
  | some rest ↦ elim (scan_int rest) [ none ↦ none | some (t, _) ↦ some t ]
]

unfoldable pub take_task : ℤ → ℤ → Driver → Outcome
unfolding ◌+ℤ◌
take_task now timer d = elim d.status [
  | available ↦
      stay (record { status = busy; task_timer = timer; task_end_time = now +ℤ timer })
        (some accepted)
  | busy ↦ stay d (some (occupied d.task_timer))
]

unfoldable pub tell_status : Driver → Outcome
tell_status d = elim d.status [
  | available ↦ stay d (some idle)
  | busy ↦ stay d (some (occupied d.task_timer))
]

-- The ladder of strncmp over a command that was read.
unfoldable pub handle_command : ℤ → Text → Driver → Outcome
handle_command now buffer d =
    if starts_with (codes "SEND_TASK") buffer
    then elim (scan_task buffer) [ none ↦ stay d none | some timer ↦ take_task now timer d ]
    else if starts_with (codes "GET_STATUS") buffer
    then tell_status d
    else if starts_with (codes "EXIT") buffer
    then leave
    else stay d none

unfoldable pub handle_read : ℤ → ReadResult → Driver → Outcome
unfolding handle_command
handle_read now read_failed d = stay d none
handle_read now (read_bytes []) d = stay d none
handle_read now (read_bytes (c ∷ s)) d = handle_command now (c ∷ s) d

unfoldable pub handle_poll : ℤ → Poll → Driver → Outcome
unfolding handle_read
handle_poll now poll_failed d = stay d none
handle_poll now poll_timeout d = stay d none
handle_poll now (poll_event false r) d = stay d none
handle_poll now (poll_event true r) d = handle_read now r d

-- the end of the loop's body, unless `break` has left it
unfoldable pub at_tail : ℤ → Outcome → Outcome
unfolding refresh
at_tail now (stay d reply) = stay (refresh now d) reply
at_tail now leave = leave

-- One round of `while (1)`.
unfoldable pub round : Clock → Poll → Driver → Outcome
unfolding at_tail handle_poll refresh
round c p d = at_tail c.tail (handle_poll c.task p (refresh c.head d))
