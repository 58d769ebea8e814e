-- ===== src/Taxi/Supervisor.antt =====
-- 22_fork_poll/main.c: the supervisor's commands, send_command_to_driver to get_drivers, and one turn
-- of the loop of main. A printed line is a text; perror lines are left out of the output.
use eltex_homeworks.Prelude.{
  is_some, leb, ◌&&◌, ℕ, Bool, Option, none, some, List, [], ◌∷◌, ◌++◌, ◌==◌, if◌then◌else◌, length,
  ◌+◌, take,
}
use eltex_homeworks.Prelude.Int.{ℤ, pos, leb_ℤ, eqb_ℤ}
use eltex_homeworks.Libc.Text.{Text, codes, starts_with, strip, cut_at}
use eltex_homeworks.Libc.Decimal.{print_int, scan_int}
use eltex_homeworks.Taxi.Registry.{
  max_drivers, DriverInfo, Registry, Kernel, success, failure, find_driver_by_pid, create_driver,
}
use eltex_homeworks.Taxi.Driver.{
  ReadResult, read_failed, read_bytes, Poll, poll_failed, poll_timeout, poll_event, to_int,
}

-- One exchange with a driver as the kernel lets it go: whether the write succeeds, and what poll and
-- read then give. The event bits are not looked at.
pub record Exchange : Type 0 where
  pub written : Bool
  pub polled : Poll

abbrev pub Output : Type 0
Output = List Text

-- read(..., response, response_size - 1)
unfoldable pub read_response : ReadResult → DriverInfo → Option Text × Output
read_response read_failed d = (none, [])
read_response (read_bytes []) d =
    (none, (codes "Error: No response from driver " ++ print_int d.pid ++ 10 ∷ []) ∷ [])
read_response (read_bytes (c ∷ s)) d = (some (c ∷ s), [])

-- send_command_to_driver with a driver and a command that are not NULL: the response, `none` for -1.
unfoldable pub send_command_to_driver : Exchange → DriverInfo → Option Text × Output
unfolding read_response
send_command_to_driver x d =
    if x.written
    then elim x.polled [
      | poll_failed ↦ (none, [])
      | poll_timeout ↦ (
        none,
        (codes "Error: Timeout waiting for response from driver " ++ print_int d.pid ++ 10 ∷ [])
            ∷ [],
      )
      | poll_event _ r ↦ read_response r d
    ]
    else (none, [])

unfoldable pub not_found : ℤ → Output
not_found pid =
    (codes "Error: Driver with PID " ++ print_int pid ++ codes " not found" ++ 10 ∷ []) ∷ []

-- printf("Driver %d: %s", pid, response), or the failure passed on
unfoldable pub report : ℤ → Option Text × Output → ℤ × Output
report pid (none, out) = (failure, out)
report pid (some response, out) =
    (success, out ++ (codes "Driver " ++ print_int pid ++ codes ": " ++ response) ∷ [])

-- snprintf(command, sizeof(command), "SEND_TASK %d\n", task_timer); no `int` fills the buffer
unfoldable pub task_command : ℤ → Text
task_command timer = codes "SEND_TASK " ++ print_int timer ++ 10 ∷ []

abbrev pub status_command : Text
status_command = codes "GET_STATUS" ++ 10 ∷ []

-- `link` is what the exchange of a command with a driver does.
module _ (link : DriverInfo → Text → Exchange) where
  unfoldable pub send_task : Registry → ℤ → ℤ → ℤ × Output
  send_task r pid timer =
      if leb_ℤ timer (pos 0)
      then (failure, (codes "Error: Task timer must be positive" ++ 10 ∷ []) ∷ [])
      else elim (find_driver_by_pid pid r.drivers) [
        | none ↦ (failure, not_found pid)
        | some d ↦ report pid (send_command_to_driver (link d (task_command timer)) d)
      ]

  unfoldable pub get_status : Registry → ℤ → ℤ × Output
  get_status r pid = elim (find_driver_by_pid pid r.drivers) [
    | none ↦ (failure, not_found pid)
    | some d ↦ report pid (send_command_to_driver (link d status_command) d)
  ]

  -- the loop of get_drivers from index `i` on
  unfoldable pub list_drivers : Registry → ℕ → List DriverInfo → Output
  unfolding get_status
  list_drivers r i [] = []
  list_drivers r i (d ∷ ds) =
      let (code, out) = get_status r d.pid in
      (codes "Driver "
          ++ print_int (pos (i + 1))
          ++ codes ": PID "
          ++ print_int d.pid
          ++ codes " - ")
        ∷ out
      ++ (if eqb_ℤ code success
          then []
          else (codes "Error: getting status for driver " ++ print_int d.pid ++ 10 ∷ []) ∷ [])
      ++ list_drivers r (i + 1) ds

  unfoldable pub get_drivers : Registry → ℤ × Output
  unfolding list_drivers
  get_drivers r =
      if length r.drivers == 0 then (success, (codes "No drivers available" ++ 10 ∷ []) ∷ []) else (
        success,
        (codes "Total drivers: " ++ print_int (pos (length r.drivers)) ++ 10 ∷ [])
            ∷ list_drivers r 0 r.drivers,
      )

-- What a line of input asks for.
pub data Request : Type 0 where
  create : Request
  task : ℤ → ℤ → Request
  task_usage : Request
  status : ℤ → Request
  status_usage : Request
  drivers : Request
  exit : Request
  unknown : Text → Request
  blank : Request

-- sscanf(input, "send_task %d %d", &pid, &timer) == 2. A number that does not fit into an int is not defined
-- by C; it is cut to 32 bits here.
unfoldable pub scan_send : Text → Request
scan_send input = elim (strip (codes "send_task") input) [
  | none ↦ task_usage
  | some rest ↦ elim (scan_int rest) [
    | none ↦ task_usage
    | some (pid, rest') ↦ elim (scan_int rest') [
      | none ↦ task_usage
      | some (timer, _) ↦ task (to_int pid) (to_int timer)
    ]
  ]
]

-- sscanf(input, "get_status %d", &pid) == 1
unfoldable pub scan_status : Text → Request
scan_status input = elim (strip (codes "get_status") input) [
  | none ↦ status_usage
  | some rest ↦ elim (scan_int rest) [ none ↦ status_usage | some (pid, _) ↦ status (to_int pid) ]
]

-- fgets takes at most 255 bytes of a line; what is behind them is the next line.
abbrev pub max_line : ℕ
max_line = 255

-- The ladder of strncmp in main, on the line that fgets gets, without its newline.
unfoldable pub parse_request : Text → Request
parse_request line =
    let input = cut_at 10 (take max_line line) in
    if starts_with (codes "create_driver") input
    then create
    else if starts_with (codes "send_task") input
    then scan_send input
    else if starts_with (codes "get_status") input
    then scan_status input
    else if starts_with (codes "get_drivers") input
    then drivers
    else if starts_with (codes "exit") input
    then exit
    else if length input == 0
    then blank
    else unknown input

-- What create_driver prints, with the pid of the new child.
unfoldable pub created : Kernel → Registry → Output
created k r =
    if leb max_drivers (length r.drivers)
    then (codes "Error: Maximum number of drivers ("
        ++ print_int (pos max_drivers)
        ++ codes ") reached"
        ++ 10 ∷ [])
      ∷ []
    else elim k.fork [
      | none ↦ []
      | some pid ↦
          if is_some k.first_pipe && is_some k.second_pipe
          then (codes "Created driver with PID: " ++ print_int pid ++ 10 ∷ []) ∷ []
          else []
    ]

-- A line on failure of a command.
complain : Text → ℤ × Output → Output
complain message (code, out) = out ++ (if eqb_ℤ code success then [] else (message ++ 10 ∷ []) ∷ [])

pub data Turn : Type 0 where
  next : Registry → Output → Turn
  stop : Registry → Turn

-- One turn of the loop of main: `none` is the end of the input.
unfoldable pub serve : Kernel → (DriverInfo → Text → Exchange) → Request → Registry → Turn
unfolding complain
serve k link create r =
    let (code, r') = create_driver k r in
    next r' (complain (codes "Error creating driver") (code, created k r))
serve k link (task pid timer) r =
    next r (complain (codes "Error sending task to driver") (send_task link r pid timer))
serve k link task_usage r = next r ((codes "Usage: send_task <pid> <timer>" ++ 10 ∷ []) ∷ [])
serve k link (status pid) r =
    next r (complain (codes "Error getting driver status") (get_status link r pid))
serve k link status_usage r = next r ((codes "Usage: get_status <pid>" ++ 10 ∷ []) ∷ [])
serve k link drivers r = next r (complain (codes "Error getting drivers list") (get_drivers link r))
serve k link exit r = stop r
serve k link (unknown input) r = next r ((codes "Unknown command: " ++ input ++ 10 ∷ []) ∷ [])
serve k link blank r = next r []

unfoldable pub main_turn : Kernel → (DriverInfo → Text → Exchange) → Option Text → Registry → Turn
main_turn k link none r = stop r
main_turn k link (some line) r = serve k link (parse_request line) r
