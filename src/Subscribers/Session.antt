-- ===== src/Subscribers/Session.antt =====
-- 06_dynamic_memory/main.c against a sorted list of subscribers.
use eltex_homeworks.Prelude.{
  ℕ, suc, ◌≤◌, ◌≡◌, refl, subst, ap, Bool, true, false, Option, none, some, List, [], ◌∷◌,
  if◌then◌else◌, arith, length, is_some,
}
use eltex_homeworks.Prelude.Memory.{◌>>=◌}
use eltex_homeworks.Libc.Text.{Text, codes}
use eltex_homeworks.Subscribers.Linked.{Abonent, Heap, insert, delete_node}
use eltex_homeworks.Subscribers.Cells.{Cells, abonents, memory, Represents}
use eltex_homeworks.Subscribers.Order.{put, remove, find, IsSorted, put-IsSorted, remove-IsSorted}
use eltex_homeworks.Subscribers.Placing.{Lists, insert-Lists}
use eltex_homeworks.Subscribers.Deleting.{Deleted, delete_node-Deleted}
use eltex_homeworks.Subscribers.Walking.{find_by_name-find, listed-abonents, free_list-frees}
use eltex_homeworks.Subscribers.Menu.{
  Command, add, delete, search, print_list, exit, wrong, table, found_line, deleted_line, Phonebook,
  start, execute,
}

-- The output and the list after a command; `allocated` says whether malloc gave memory.
abbrev pub answer : Bool → Command → List Abonent → Text × List Abonent
answer allocated (add ab) es = (codes "Added!\n", if allocated then put ab es else es)
answer allocated (delete name) es = (deleted_line (is_some (find name es)), remove name es)
answer allocated (search name) es = (found_line (find name es), es)
answer allocated print_list es = (table es, es)
answer allocated exit es = ([], [])
answer allocated wrong es = (codes "Wrong input!\n", es)

-- A list in the memory, with nothing else in it, sorted, and not longer than the number of rounds.
pub record Keeps (es : List Abonent) (b : Phonebook) : Type 0 where
  pub cells : Cells
  pub represents : Represents b.heap b.head cells
  pub kept : abonents cells ≡ es
  pub short : length es ≤ b.rounds
  pub sorted : IsSorted es

abbrev pub Answers : Text × List Abonent → Option (Text × Phonebook) → Type 0
Answers spec none = ⊥
Answers spec (some (out, b)) = (out ≡ spec.0) × Keeps spec.1 b

length-put : (ab : Abonent) (es : List Abonent) → length (put ab es) ≡ suc (length es)
length-put ab [] = refl
length-put ab (e ∷ es) = ground (arith, length-put ab es)

length-remove : (name : Text) (es : List Abonent) → length (remove name es) ≤ length es
length-remove name [] = omega arith
length-remove name (e ∷ es) = ground (arith, length-remove name es)

length-abonents : (cs : Cells) → length (abonents cs) ≡ length cs
length-abonents [] = refl
length-abonents (c ∷ cs) = ap suc (length-abonents cs)

enough : {es : List Abonent} {b : Phonebook} (k : Keeps es b) → length k.cells ≤ b.rounds
enough k = omega (arith, length-abonents k.cells, ap length k.kept, k.short)

-- The command is carried out, from the result of its call on.
after_insert :
    (b : Phonebook) (allocated : Bool) (ab : Abonent) (es : List Abonent)
    (r : Option (Heap × Option ℕ))
    → IsSorted es
    → length es ≤ b.rounds
    → Lists (if allocated then put ab es else es) r
    → Answers (answer allocated (add ab) es) (
        r >>= λ (heap, head).
        some (codes "Added!\n", record { heap = heap; head = head; rounds = suc b.rounds }))
after_insert b allocated ab es none s short (cs, h, e) = h
after_insert b true ab es (some (heap, head)) s short (cs, h, e) = (
  refl,
  record {
    cells = cs;
    represents = h;
    kept = e;
    short = omega (arith, length-put ab es);
    sorted = put-IsSorted ab es s;
  },
)
after_insert b false ab es (some (heap, head)) s short (cs, h, e) =
    (refl, record { cells = cs; represents = h; kept = e; short = omega arith; sorted = s })

after_delete :
    (b : Phonebook) (allocated : Bool) (name : Text) (es : List Abonent)
    (r : Option (Bool × Heap × Option ℕ))
    → IsSorted es
    → length es ≤ b.rounds
    → Deleted name es r
    → Answers (answer allocated (delete name) es) (
        r >>= λ (found, heap, head).
        some (deleted_line found, record { heap = heap; head = head; rounds = suc b.rounds }))
after_delete b allocated name es none s short d = d
after_delete b allocated name es (some (found, heap, head)) s short (cs, h, e, f) = (
  ap deleted_line f,
  record {
    cells = cs;
    represents = h;
    kept = e;
    short = omega (arith, length-remove name es);
    sorted = remove-IsSorted name es s;
  },
)

-- Nothing is in the memory.
cleared :
    (b : Phonebook) (heap : Heap)
    → ((a : ℕ) → heap a ≡ none)
    → Keeps [] (record { heap = heap; head = none; rounds = suc b.rounds })
cleared b heap clean = record {
  cells = [];
  represents = record { at_head = refl; distinct = tt; exact = unfold memory in clean };
  kept = refl;
  short = omega arith;
  sorted = tt;
}

-- One more round, with the list as it was.
next_round :
    {es : List Abonent} {b : Phonebook} → Keeps es b → Keeps es (record b { rounds = suc b.rounds })
next_round k = record {
  cells = k.cells;
  represents = k.represents;
  kept = k.kept;
  short = omega (arith, k.short);
  sorted = k.sorted;
}

-- A command on a list that is kept in order, with any answer of malloc that is NULL or not in use: no bad
-- pointer is used, the output is that of the sorted list, and so is the list afterwards. After "exit"
-- nothing is left in the memory.
pub execute-Answers :
    (m : Option ℕ) (c : Command) (es : List Abonent) (b : Phonebook)
    → Keeps es b
    → ((a : ℕ) → m ≡ some a → b.heap a ≡ none)
    → Answers (answer (is_some m) c es) (execute m c b)
unfolding execute
execute-Answers m (add ab) es b k new =
    after_insert b (is_some m) ab es (insert b.rounds m ab b.heap b.head) k.sorted k.short (
      subst (λ es. Lists (if is_some m then put ab es else es) (insert b.rounds m ab b.heap b.head))
        k.kept (insert-Lists b.rounds m ab b.heap b.head k.cells k.represents new (enough k)))
execute-Answers m (delete name) es b k new =
    after_delete b (is_some m) name es (delete_node b.rounds name b.heap b.head) k.sorted k.short (
      subst (λ es. Deleted name es (delete_node b.rounds name b.heap b.head)) k.kept
        (delete_node-Deleted b.rounds name b.heap b.head k.cells k.represents (enough k)))
execute-Answers m (search name) es b k new =
    rw (find_by_name-find b.rounds b.heap b.head k.cells k.represents (enough k) name, ◌>>=◌)
      (ap (λ es. found_line (find name es)) k.kept, next_round k)
execute-Answers m print_list es b k new =
    rw (listed-abonents b.rounds b.heap b.head k.cells k.represents (enough k), ◌>>=◌)
      (ap table k.kept, next_round k)
execute-Answers m exit es b k new =
    let (h, done, clean) = free_list-frees b.rounds b.heap b.head k.cells k.represents (enough k) in
    rw (done, ◌>>=◌) (refl, cleared b h clean)
execute-Answers m wrong es b k new = (refl, next_round k)

-- Any commands, each with an answer of malloc that is not in use then.
pub data Reach : Phonebook → Type 0 where
  boot : Reach start
  step :
      {b b' : Phonebook} (m : Option ℕ) (c : Command) (out : Text)
      → Reach b
      → ((a : ℕ) → m ≡ some a → b.heap a ≡ none)
      → execute m c b ≡ some (out, b')
      → Reach b'

start-Keeps : Keeps [] start
unfolding start
start-Keeps = record {
  cells = [];
  represents = record { at_head = refl; distinct = tt; exact = λ b. unfold memory in refl };
  kept = refl;
  short = omega arith;
  sorted = tt;
}

-- Whatever commands are given: the memory holds exactly one well-formed list, whose names are in order.
pub Reach-Keeps : {b : Phonebook} → Reach b → (es : List Abonent) × Keeps es b
Reach-Keeps boot = ([], start-Keeps)
Reach-Keeps (step {b} m c out r new done) =
    let (es, k) = Reach-Keeps r in
    let (_, k') = subst (Answers (answer (is_some m) c es)) done (execute-Answers m c es b k new) in
    (_, k')
