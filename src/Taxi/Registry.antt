-- ===== src/Taxi/Registry.antt =====
-- 22_fork_poll/main.c: the global table of drivers, create_driver, find_driver_by_pid, cleanup_driver
-- and cleanup, over the descriptor table of the supervising process. What pipe, fork, write and
-- waitpid answer is an argument.
use eltex_homeworks.Prelude.{
  ℕ, Bool, Option, none, some, List, [], ◌∷◌, ◌++◌, leb, ◌==◌, if◌then◌else◌, length,
}
use eltex_homeworks.Prelude.Int.{ℤ, pos, negsuc, eqb_ℤ}

abbrev pub max_drivers : ℕ
max_drivers = 100

abbrev pub success : ℤ
success = pos 0

abbrev pub failure : ℤ
failure = negsuc 0

pub data DriverStatus : Type 0 where
  available busy : DriverStatus

-- int fd[2], read end and write end
pub record Pipe : Type 0 where
  pub read : ℕ
  pub write : ℕ

pub record DriverInfo : Type 0 where
  pub pid : ℤ
  pub status : DriverStatus
  pub task_timer : ℤ
  pub task_end_time : ℤ
  pub to_driver : Pipe
  pub from_driver : Pipe

-- drivers[0 .. driver_count), and the open descriptors of the process
pub record Registry : Type 0 where
  pub drivers : List DriverInfo
  pub open_fds : List ℕ

-- The kernel's answers to the two calls of pipe and to fork: `none` for -1. To the parent fork
-- gives the child's pid.
pub record Kernel : Type 0 where
  pub first_pipe : Option Pipe
  pub second_pipe : Option Pipe
  pub fork : Option ℤ

-- close(fd); a descriptor that is not open is refused with no effect
unfoldable pub close : ℕ → List ℕ → List ℕ
close fd [] = []
close fd (x ∷ xs) = if fd == x then xs else x ∷ close fd xs

abbrev pub open_pipe : Pipe → List ℕ → List ℕ
open_pipe p fds = p.read ∷ p.write ∷ fds

unfoldable pub find_driver_by_pid : ℤ → List DriverInfo → Option DriverInfo
find_driver_by_pid pid [] = none
find_driver_by_pid pid (d ∷ ds) = if eqb_ℤ d.pid pid then some d else find_driver_by_pid pid ds

-- close of both ends, as the error paths and the two processes do
unfoldable pub close_pipe : Pipe → List ℕ → List ℕ
close_pipe p fds = close p.write (close p.read fds)

-- the entry of a driver that has just been forked
abbrev pub new_driver : ℤ → Pipe → Pipe → DriverInfo
new_driver pid p q = record {
  pid = pid;
  status = available;
  task_timer = pos 0;
  task_end_time = pos 0;
  to_driver = p;
  from_driver = q;
}

-- the parent's branch after fork
unfoldable pub register : ℤ → Pipe → Pipe → Registry → Registry
register pid p q r = record {
  drivers = r.drivers ++ new_driver pid p q ∷ [];
  open_fds = close q.write (close p.read r.open_fds);
}

-- the child's branch: the descriptors with which driver_process starts
unfoldable pub child_fds : Pipe → Pipe → List ℕ → List ℕ
child_fds p q fds = close q.read (close p.write fds)

-- create_driver behind its first guard, over the answers of pipe, pipe and fork.
unfoldable pub with_pipes : Option Pipe → Option Pipe → Option ℤ → Registry → ℤ × Registry
with_pipes none _ _ r = (failure, r)
with_pipes (some p) none _ r =
    (failure, record r { open_fds = close_pipe p (open_pipe p r.open_fds) })
with_pipes (some p) (some q) none r = (
  failure,
  record r { open_fds = close_pipe q (close_pipe p (open_pipe q (open_pipe p r.open_fds))) },
)
with_pipes (some p) (some q) (some pid) r =
    (success, register pid p q (record r { open_fds = open_pipe q (open_pipe p r.open_fds) }))

-- create_driver as the supervisor sees it: its result and the new globals.
unfoldable pub create_driver : Kernel → Registry → ℤ × Registry
create_driver k r =
    if leb max_drivers (length r.drivers)
    then (failure, r)
    else with_pipes k.first_pipe k.second_pipe k.fork r

-- Whether the write of EXIT and waitpid succeed.
pub record Goodbye : Type 0 where
  pub written : Bool
  pub reaped : Bool

-- cleanup_driver: EXIT is written, both descriptors are closed, the child is waited for.
unfoldable pub cleanup_driver : Goodbye → DriverInfo → List ℕ → ℤ × List ℕ
cleanup_driver g d fds = (
  if g.written then (if g.reaped then success else failure) else failure,
  close d.from_driver.read (close d.to_driver.write fds),
)

-- cleanup: every driver in turn, and -1 if one of them failed. `driver_count` is left as it is.
unfoldable pub cleanup : (DriverInfo → Goodbye) → List DriverInfo → List ℕ → ℤ → ℤ × List ℕ
cleanup g [] fds result = (result, fds)
cleanup g (d ∷ ds) fds result =
    let (code, rest) = cleanup_driver (g d) d fds in
    cleanup g ds rest (if eqb_ℤ code success then result else failure)
