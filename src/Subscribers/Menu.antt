-- ===== src/Subscribers/Menu.antt =====
-- 06_dynamic_memory/main.c: what a round of the loop of main reads, and what it does. The prompts are
-- left out of the output.
use eltex_homeworks.Prelude.{
  ℕ, suc, ◌-◌, Bool, true, false, Option, none, some, List, [], ◌∷◌, ◌++◌, if◌then◌else◌, length,
  replicate,
}
use eltex_homeworks.Prelude.Int.{ℤ, pos, eqb_ℤ}
use eltex_homeworks.Prelude.Memory.{◌>>=◌}
use eltex_homeworks.Libc.Text.{Text, codes}
use eltex_homeworks.Libc.Decimal.{scan_int, skip_spaces}
use eltex_homeworks.Libc.Input.{scan_word, skip_past}
use eltex_homeworks.Subscribers.Linked.{
  Abonent, Heap, insert, delete_node, find_by_name, free_list, listed,
}

pub data Command : Type 0 where
  add : Abonent → Command
  delete : Text → Command
  search : Text → Command
  print_list : Command
  exit : Command
  wrong : Command

-- scanf("%9s"), three times.
unfoldable pub read_abonent : Text → Option (Command × Text)
read_abonent s = do
  (name, s) ← scan_word 9 s
  (second_name, s) ← scan_word 9 s
  (tel, s) ← scan_word 9 s
  some (add (record { name = name; second_name = second_name; tel = tel }), s)

unfoldable pub read_name : (Text → Command) → Text → Option (Command × Text)
read_name command s = do (name, s) ← scan_word 9 s; some (command name, s)

unfoldable pub read_choice : ℤ → Text → Option (Command × Text)
read_choice choice s =
    if eqb_ℤ choice (pos 1)
    then read_abonent s
    else if eqb_ℤ choice (pos 2)
    then read_name delete s
    else if eqb_ℤ choice (pos 3)
    then read_name search s
    else if eqb_ℤ choice (pos 4)
    then some (print_list, s)
    else if eqb_ℤ choice (pos 5)
    then some (exit, s)
    else some (wrong, s)

-- The number, 0 if there is none, with the input behind it. (A sign with no digit behind it is read by
-- scanf as well; skip_past goes over it.)
abbrev pub scan_choice : Text → ℤ × Text
scan_choice s = elim (scan_int s) [ none ↦ (pos 0, skip_spaces s) | some (z, rest) ↦ (z, rest) ]

-- What a round reads. `none` at the end of the input: the loop of getchar never ends, or scanf leaves
-- an array as it is, whose bytes are not defined.
unfoldable pub read_command : Text → Option (Command × Text)
read_command s = do let (choice, s) = scan_choice s; s ← skip_past 10 s; read_choice choice s

-- printf("%<width>s", s)
unfoldable pub pad : ℕ → Text → Text
pad width s = replicate (width - length s) 32 ++ s

abbrev pub row : Text → Text → Text → Text
row a b c = pad 10 a ++ (124 ∷ pad 11 b) ++ (124 ∷ pad 12 c) ++ 10 ∷ []

abbrev pub rows : List Abonent → Text
rows [] = []
rows (ab ∷ abs) = row ab.name ab.second_name ab.tel ++ rows abs

unfoldable pub table : List Abonent → Text
table abs = codes "      Name|Second name|Phone number\n" ++ rows abs

unfoldable pub found_line : Option Abonent → Text
found_line none = codes "Not found.\n"
found_line (some ab) =
    codes "Found: " ++ ab.name ++ (32 ∷ ab.second_name) ++ (32 ∷ ab.tel) ++ 10 ∷ []

unfoldable pub deleted_line : Bool → Text
deleted_line true = codes "Deleted!\n"
deleted_line false = codes "Not found\n"

-- The list, and the number of rounds that were made: each adds one node at most, so that a loop over the
-- list that many rounds has fuel enough.
pub record Phonebook : Type 0 where
  pub heap : Heap
  pub head : Option ℕ
  pub rounds : ℕ

unfoldable pub start : Phonebook
start = record { heap = λ b. none; head = none; rounds = 0 }

-- The output with the new state; `m` is the answer of malloc. `none` stands for a bad pointer.
unfoldable pub execute : Option ℕ → Command → Phonebook → Option (Text × Phonebook)
execute m (add ab) b = do
  (heap, head) ← insert b.rounds m ab b.heap b.head
  some (codes "Added!\n", record { heap = heap; head = head; rounds = suc b.rounds })
execute m (delete name) b = do
  (found, heap, head) ← delete_node b.rounds name b.heap b.head
  some (deleted_line found, record { heap = heap; head = head; rounds = suc b.rounds })
execute m (search name) b = do
  found ← find_by_name b.rounds name b.heap b.head
  some (found_line found, record b { rounds = suc b.rounds })
execute m print_list b = do
  abs ← listed b.rounds b.heap b.head
  some (table abs, record b { rounds = suc b.rounds })
execute m exit b = do
  heap ← free_list b.rounds b.heap b.head
  some ([], record { heap = heap; head = none; rounds = suc b.rounds })
execute m wrong b = some (codes "Wrong input!\n", record b { rounds = suc b.rounds })
