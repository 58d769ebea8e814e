-- ===== src/Taxi/Descriptors.antt =====
-- 22_fork_poll/main.c: the pipe descriptors that create_driver opens and cleanup closes. Lists of
-- descriptors are compared by how often each descriptor occurs.
use eltex_homeworks.Prelude.{
  ℕ, ◌+◌, ◌≤◌, ◌<◌, ◌≡◌, refl, ◌⊎◌, inl, inr, Option, none, some, List, [], ◌∷◌, ◌++◌, arith, leb,
  ◌==◌, if◌then◌else◌, length, Bool-cases, leb→le,
}
use eltex_homeworks.Prelude.Int.{ℤ}
use eltex_homeworks.Taxi.Registry.{
  max_drivers, success, failure, Pipe, DriverInfo, Registry, Kernel, Goodbye, close, open_pipe,
  close_pipe, new_driver, register, with_pipes, create_driver, cleanup_driver, cleanup,
}

-- How often a descriptor is open.
abbrev pub hit : ℕ → ℕ → ℕ
hit x fd = if fd == x then 1 else 0

abbrev pub times : List ℕ → ℕ → ℕ
times [] fd = 0
times (x ∷ opened) fd = times opened fd + hit x fd

-- The same descriptors, as often.
abbrev pub SameFds : List ℕ → List ℕ → Type 0
SameFds xs ys = (fd : ℕ) → times xs fd ≡ times ys fd

-- Closing an open descriptor takes away one occurrence.
times-close :
    (opened : List ℕ) (fd other : ℕ)
    → 1 ≤ times opened fd
    → times (close fd opened) other + hit fd other ≡ times opened other
unfolding close
times-close [] fd other h = absurd (omega arith)
times-close (x ∷ opened) fd other h = ground (arith, times-close opened fd other)

-- The ends that the supervisor keeps, before the descriptors `base`.
abbrev pub held : List DriverInfo → List ℕ → List ℕ
held [] base = base
held (d ∷ ds) base = d.to_driver.write ∷ d.from_driver.read ∷ held ds base

held-new :
    (ds : List DriverInfo) (d : DriverInfo) (base : List ℕ)
    → SameFds (held (ds ++ d ∷ []) base) (d.to_driver.write ∷ d.from_driver.read ∷ held ds base)
held-new [] d base fd = refl
held-new (e ∷ ds) d base fd = omega (arith, held-new ds d base fd)

-- Besides `base` the supervisor has exactly the kept ends of its drivers open.
abbrev pub Accounts : List ℕ → Registry → Type 0
Accounts base r = SameFds r.open_fds (held r.drivers base)

hit_self : (fd : ℕ) → hit fd fd ≡ 1
hit_self fd = ground arith

-- Two descriptors that are open are closed.
times-close_two :
    (x y : ℕ) (xs zs : List ℕ) → SameFds xs (x ∷ y ∷ zs) → SameFds (close y (close x xs)) zs
times-close_two x y xs zs h a =
    let first : 1 ≤ times xs x = omega (arith, h x, hit_self x) in
    let second : 1 ≤ times (close x xs) y =
      omega (arith, times-close xs x y first, h y, hit_self y) in
    omega (arith, times-close xs x a first, times-close (close x xs) y a second, h a)

module _ (p : Pipe) (ys : List ℕ) where
  times-close_pipe : (xs : List ℕ) → SameFds xs (open_pipe p ys) → SameFds (close_pipe p xs) ys
  unfolding close_pipe
  times-close_pipe xs h = times-close_two p.read p.write xs ys h

  times-close_both :
      (q : Pipe) → SameFds (close_pipe q (close_pipe p (open_pipe q (open_pipe p ys)))) ys
  unfolding close_pipe
  times-close_both q =
      times-close_two q.read q.write (close p.write (close p.read (open_pipe q (open_pipe p ys))))
        ys
        (times-close_two p.read p.write (open_pipe q (open_pipe p ys)) (open_pipe q ys)
          (λ a. omega arith))

  -- Of two new pipes the parent keeps one end each.
  times-register :
      (pid : ℤ) (q : Pipe) (ds : List DriverInfo)
      → SameFds
          (register pid p q
            (record { drivers = ds; open_fds = open_pipe q (open_pipe p ys) })).open_fds
          (p.write ∷ q.read ∷ ys)
  unfolding register
  times-register pid q ds =
      times-close_two p.read q.write (open_pipe q (open_pipe p ys)) (p.write ∷ q.read ∷ ys)
        (λ a. omega arith)

-- What create_driver does to the globals. It fails and leaves the table and the descriptors as they
-- were, or it adds one driver and keeps one end of each of its pipes.
abbrev pub Created : Kernel → Registry → ℤ × Registry → Type 0
Created k r (code, r') =
    ((code ≡ failure)
      × ((max_drivers ≤ length r.drivers)
          ⊎ (k.first_pipe ≡ none)
          ⊎ (k.second_pipe ≡ none)
          ⊎ (k.fork ≡ none))
      × (r'.drivers ≡ r.drivers)
      × SameFds r'.open_fds r.open_fds)
    ⊎ ((pid : ℤ) × (p : Pipe) × (q : Pipe) × (code ≡ success)
        × (length r.drivers < max_drivers)
        × (k.fork ≡ some pid)
        × (k.first_pipe ≡ some p)
        × (k.second_pipe ≡ some q)
        × (r'.drivers ≡ r.drivers ++ new_driver pid p q ∷ [])
        × SameFds r'.open_fds (p.write ∷ q.read ∷ r.open_fds))

with_pipes-Created :
    (k : Kernel) (f s : Option Pipe) (n : Option ℤ) (r : Registry)
    → k.first_pipe ≡ f
    → k.second_pipe ≡ s
    → k.fork ≡ n
    → length r.drivers < max_drivers
    → Created k r (with_pipes f s n r)
unfolding with_pipes
with_pipes-Created k none s n r ef es en room = inl (refl, inr (inl ef), refl, λ a. refl)
with_pipes-Created k (some p) none n r ef es en room = inl (
  refl,
  inr (inr (inl es)),
  refl,
  times-close_pipe p r.open_fds (open_pipe p r.open_fds) (λ a. refl),
)
with_pipes-Created k (some p) (some q) none r ef es en room =
    inl (refl, inr (inr (inr en)), refl, times-close_both p r.open_fds q)
with_pipes-Created k (some p) (some q) (some pid) r ef es en room = inr (
  pid,
  p,
  q,
  refl,
  room,
  en,
  ef,
  es,
  unfold register in refl,
  times-register p r.open_fds pid q r.drivers,
)

-- Whatever pipe and fork answer, create_driver is all or nothing. It fails only when the table is full,
-- a pipe or the fork fails, and then the table of drivers is unchanged and every descriptor that it
-- opened is closed again. Otherwise the table has one more driver, with the pid that fork gave and the
-- two pipes, and of the four new descriptors just the write end to the driver and the read end from it
-- stay open.
pub create_driver-Created : (k : Kernel) (r : Registry) → Created k r (create_driver k r)
unfolding create_driver
create_driver-Created k r = elim (Bool-cases (leb max_drivers (length r.drivers))) [
  | inl full ↦ rw full (inl (refl, inl (leb→le _ _ full), refl, λ a. refl))
  | inr room ↦
      rw room
        (with_pipes-Created k k.first_pipe k.second_pipe k.fork r refl refl refl (ground arith))
]

-- create_driver, any number of times
unfoldable pub create_all : List Kernel → Registry → Registry
create_all [] r = r
create_all (k ∷ ks) r = create_all ks (create_driver k r).1

create_driver-Accounts :
    (base : List ℕ) (k : Kernel) (r : Registry)
    → Accounts base r
    → Accounts base (create_driver k r).1
create_driver-Accounts base k r h a = elim (create_driver-Created k r) [
  | inl (_, _, ds, fds) ↦ rw ds (omega (arith, fds a, h a))
  | inr (pid, p, q, _, _, _, _, _, ds, fds) ↦
      rw ds (omega (arith, held-new r.drivers (new_driver pid p q) base a, fds a, h a))
]

create_all-Accounts :
    (base : List ℕ) (ks : List Kernel) (r : Registry)
    → Accounts base r
    → Accounts base (create_all ks r)
unfolding create_all
create_all-Accounts base [] r h = h
create_all-Accounts base (k ∷ ks) r h =
    create_all-Accounts base ks (create_driver k r).1 (create_driver-Accounts base k r h)

cleanup-held :
    (g : DriverInfo → Goodbye) (ds : List DriverInfo) (fds base : List ℕ) (result : ℤ)
    → SameFds fds (held ds base)
    → SameFds (cleanup g ds fds result).1 base
unfolding cleanup cleanup_driver
cleanup-held g [] fds base result h = h
cleanup-held g (d ∷ ds) fds base result h =
    cleanup-held g ds _ base _
      (times-close_two d.to_driver.write d.from_driver.read fds (held ds base) h)

-- A supervisor that starts with the descriptors `base` and no drivers, calls create_driver any number
-- of times, with any answers of the kernel, and then cleanup, ends with exactly the descriptors `base`
-- open, also when some write or waitpid of cleanup fails.
pub cleanup-create_all :
    (base : List ℕ) (ks : List Kernel) (g : DriverInfo → Goodbye)
    → let r = create_all ks (record { drivers = []; open_fds = base }) in
      SameFds (cleanup g r.drivers r.open_fds success).1 base
cleanup-create_all base ks g =
    let r : Registry = create_all ks (record { drivers = []; open_fds = base }) in
    cleanup-held g r.drivers r.open_fds base success
      (create_all-Accounts base ks (record { drivers = []; open_fds = base }) (λ a. omega arith))
