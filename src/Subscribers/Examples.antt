-- ===== src/Subscribers/Examples.antt =====
-- 06_dynamic_memory: tests of the menu, and the theorems at small lists.
use eltex_homeworks.Prelude.{ℕ, ◌≡◌, refl, true, Option, none, some, List, [], ◌∷◌, ◌++◌, arith}
use eltex_homeworks.Prelude.Memory.{◌>>=◌, write, free, update}
use eltex_homeworks.Libc.Text.{codes, str_eq, str_lt}
use eltex_homeworks.Subscribers.Linked.{
  Abonent, create_node, walk, link_front, link_end, link_before, next_of_prev, link_at, insert,
  unlink, delete_from, delete_node, listed,
}
use eltex_homeworks.Subscribers.Cells.{Cells, memory, Represents}
use eltex_homeworks.Subscribers.Menu.{
  add, delete, search, found_line, Phonebook, start, execute, read_command, pad, table,
}
use eltex_homeworks.Subscribers.Session.{
  answer, Keeps, Answers, Reach, Reach-Keeps, execute-Answers,
}
use eltex_homeworks.Subscribers.Typing.{add_lines, read_command-add_lines, add-search-delete}

abbrev ann : Abonent
ann = record { name = codes "Ann"; second_name = codes "Lee"; tel = codes "123" }

abbrev bob : Abonent
bob = record { name = codes "Bob"; second_name = codes "Ray"; tel = codes "45" }

abbrev amy : Abonent
amy = record { name = codes "Amy"; second_name = codes "Fox"; tel = codes "6" }

abbrev two_cells : Cells
two_cells = (1, ann) ∷ (2, bob) ∷ []

two-Represents : Represents (memory none two_cells) (some 1) two_cells
two-Represents = record { at_head = refl; distinct = (refl, (refl, tt)); exact = λ b. refl }

abbrev two : Phonebook
two = record { heap = memory none two_cells; head = some 1; rounds = 2 }

two-Keeps : Keeps (ann ∷ bob ∷ []) two
unfolding str_lt
two-Keeps = record {
  cells = two_cells;
  represents = two-Represents;
  kept = refl;
  short = omega arith;
  sorted = ((refl, tt), (tt, tt));
}

fresh : (a : ℕ) → ◌≡◌ {A = Option ℕ} (some 7) (some a) → memory none two_cells a ≡ none
unfolding memory
fresh a e = ground arith

-- Amy is added twice, Ann in between; the list is printed in the order of the names.
abbrev after_three : Option (List Abonent)
after_three = do
  (h, head) ← insert 3 (some 5) amy (λ b. none) none
  (h, head) ← insert 3 (some 6) ann h head
  (h, head) ← insert 3 (some 4) amy h head
  (h, head) ← insert 3 (some 9) bob h head
  (found, h, head) ← delete_node 4 (codes "Ann") h head
  listed 4 h head

three_added : after_three ≡ some (amy ∷ amy ∷ bob ∷ [])
unfolding insert create_node walk link_at link_front link_end link_before next_of_prev update write
    str_lt str_eq delete_node delete_from unlink free listed
three_added = refl

execute-Answers_example :
    Answers (answer true (add amy) (ann ∷ bob ∷ [])) (execute (some 7) (add amy) two)
execute-Answers_example = execute-Answers (some 7) (add amy) (ann ∷ bob ∷ []) two two-Keeps fresh

-- One subscriber was added.
one-Reach : Reach (record { heap = create_node 3 ann (λ b. none); head = some 3; rounds = 1 })
unfolding execute insert start
one-Reach = Reach.step (some 3) (add ann) (codes "Added!\n") Reach.boot (λ a e. refl) refl

Reach-Keeps_example :
    (es : List Abonent) × Keeps es
      (record { heap = create_node 3 ann (λ b. none); head = some 3; rounds = 1 })
Reach-Keeps_example = Reach-Keeps one-Reach

read_command-add_lines_example :
    read_command (add_lines bob (codes "5\n")) ≡ some (add bob, codes "\n5\n")
read_command-add_lines_example =
    read_command-add_lines bob (codes "5\n") (omega arith, omega arith, (refl, (refl, (refl, tt))))
      (omega arith, omega arith, (refl, (refl, (refl, tt))))
      (omega arith, omega arith, (refl, (refl, tt)))

add-search-delete_example :
    Answers
      (codes "Added!\n" ++ found_line (some amy) ++ codes "Deleted!\n", ann ∷ bob ∷ [])
      (do
        (added, b) ← execute (some 7) (add amy) two
        (found, b) ← execute none (search amy.name) b
        (deleted, b) ← execute none (delete amy.name) b
        some (added ++ found ++ deleted, b))
add-search-delete_example =
    add-search-delete 7 amy (ann ∷ bob ∷ []) two two-Keeps (unfold memory in refl)

printed :
    table (bob ∷ [])
    ≡ codes "      Name|Second name|Phone number\n       Bob|        Ray|          45\n"
unfolding table pad
printed = refl
