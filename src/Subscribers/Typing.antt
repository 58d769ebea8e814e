-- ===== src/Subscribers/Typing.antt =====
-- 06_dynamic_memory/main.c: what is typed is what is added, and an addition can be undone.
use eltex_homeworks.Prelude.{
  ℕ, ◌≤◌, ◌<◌, ◌≡◌, refl, ◌∙◌, true, false, Option, none, some, List, ◌∷◌, ◌++◌, arith, length,
  append_assoc,
}
use eltex_homeworks.Prelude.Memory.{◌>>=◌}
use eltex_homeworks.Libc.Text.{Text, codes}
use eltex_homeworks.Libc.Input.{
  NoSpace, scan_word, scan_word-append, scan_word-space, scan_word-long, skip_past,
}
use eltex_homeworks.Libc.Decimal.{scan_int}
use eltex_homeworks.Subscribers.Linked.{Abonent, Heap}
use eltex_homeworks.Subscribers.Order.{put, find-put_self, remove-put_self}
use eltex_homeworks.Subscribers.Menu.{
  add, delete, search, found_line, deleted_line, Phonebook, execute, read_command, read_choice,
  read_abonent,
}
use eltex_homeworks.Subscribers.Placing.{some_eq}
use eltex_homeworks.Subscribers.Session.{answer, Keeps, Answers, execute-Answers}

-- A word that scanf of %9s reads whole.
abbrev pub IsField : Text → Type 0
IsField w = (0 < length w) × (length w ≤ 9) × NoSpace w

-- The lines that a user types to add a subscriber.
abbrev pub add_lines : Abonent → Text → Text
add_lines ab rest = 49 ∷ 10 ∷ ab.name ++ (10 ∷ ab.second_name ++ (10 ∷ ab.tel ++ 10 ∷ rest))

first_choice : (s : Text) → read_command (49 ∷ 10 ∷ s) ≡ read_abonent s
unfolding read_command scan_int skip_past read_choice
first_choice s = refl

next_field :
    (w : Text) (rest : Text) → IsField w → scan_word 9 (10 ∷ w ++ 10 ∷ rest) ≡ some (w, 10 ∷ rest)
next_field w rest (ne, le, n) =
    scan_word-space 9 10 (w ++ 10 ∷ rest) refl ∙ scan_word-append 9 w 10 rest ne n refl le

-- If the name, the second name and the telephone number have 1 to 9 bytes each and no space, typed on a
-- line each behind "1", the round adds exactly this subscriber, and the next one reads on behind them.
pub read_command-add_lines :
    (ab : Abonent) (rest : Text)
    → IsField ab.name
    → IsField ab.second_name
    → IsField ab.tel
    → read_command (add_lines ab rest) ≡ some (add ab, 10 ∷ rest)
unfolding read_abonent
read_command-add_lines ab rest (ne, le, n) second third =
    first_choice (ab.name ++ (10 ∷ ab.second_name ++ (10 ∷ ab.tel ++ 10 ∷ rest)))
    ∙ rw
        (
          scan_word-append 9 ab.name 10 (ab.second_name ++ (10 ∷ ab.tel ++ 10 ∷ rest)) ne n refl le,
          ◌>>=◌,
        )
        (rw (next_field ab.second_name (ab.tel ++ 10 ∷ rest) second, ◌>>=◌)
          (rw (next_field ab.tel rest third, ◌>>=◌) refl))

-- A name of more than 9 bytes (9 and 1 to 9 more): what does not fit becomes the second name, the
-- second name that was typed becomes the telephone number, and the number that was typed is left in the
-- input, where the next round takes it for a choice of the menu.
read_command-long_name :
    (u v second tel rest : Text)
    → length u ≡ 9
    → NoSpace u
    → IsField v
    → IsField second
    → read_command (add_lines (record { name = u ++ v; second_name = second; tel = tel }) rest)
      ≡ some (add (record { name = u; second_name = v; tel = second }), 10 ∷ tel ++ 10 ∷ rest)
unfolding read_abonent
read_command-long_name u v second tel rest lu nu (ne, le, n) second_ok =
    first_choice ((u ++ v) ++ (10 ∷ second ++ (10 ∷ tel ++ 10 ∷ rest)))
    ∙ rw
        (
          append_assoc u v (10 ∷ second ++ (10 ∷ tel ++ 10 ∷ rest)),
          scan_word-long 9 u (v ++ (10 ∷ second ++ (10 ∷ tel ++ 10 ∷ rest))) (omega arith) nu lu,
          ◌>>=◌,
        )
        (rw (scan_word-append 9 v 10 (second ++ (10 ∷ tel ++ 10 ∷ rest)) ne n refl le, ◌>>=◌)
          (rw (next_field second (tel ++ 10 ∷ rest) second_ok, ◌>>=◌) refl))

Answers->>= :
    (spec spec' : Text × List Abonent) (r : Option (Text × Phonebook))
    (f : Text × Phonebook → Option (Text × Phonebook))
    → Answers spec r
    → ((b : Phonebook) → Keeps spec.1 b → Answers spec' (f (spec.0, b)))
    → Answers spec' (r >>= f)
Answers->>= spec spec' none f a k = absurd a
Answers->>= spec spec' (some (out, b)) f (e, keeps) k = rw e (k b keeps)

nowhere : (h : Heap) (a : ℕ) → ◌≡◌ {A = Option ℕ} none (some a) → h a ≡ none
nowhere h a e = cc

-- Whoever is in the list: a subscriber that is added is the one that a search for the name then finds
-- (also if others have the same name), and deleting the name takes the same subscriber out again, so that
-- the list is as before.
pub add-search-delete :
    (a : ℕ) (ab : Abonent) (es : List Abonent) (b : Phonebook)
    → Keeps es b
    → b.heap a ≡ none
    → Answers
        (codes "Added!\n" ++ found_line (some ab) ++ codes "Deleted!\n", es)
        (do
          (added, b) ← execute (some a) (add ab) b
          (found, b) ← execute none (search ab.name) b
          (deleted, b) ← execute none (delete ab.name) b
          some (added ++ found ++ deleted, b))
unfolding deleted_line
add-search-delete a ab es b k new =
    Answers->>= (answer true (add ab) es) _ (execute (some a) (add ab) b) _
      (execute-Answers (some a) (add ab) es b k (λ a' e. rw (some_eq a a' e) new))
      (λ b₁ k₁.
        Answers->>= (answer false (search ab.name) (put ab es)) _ (execute none (search ab.name) b₁)
          _ (execute-Answers none (search ab.name) (put ab es) b₁ k₁ (nowhere b₁.heap))
          (λ b₂ k₂.
            Answers->>= (answer false (delete ab.name) (put ab es)) _
              (execute none (delete ab.name) b₂) _
              (execute-Answers none (delete ab.name) (put ab es) b₂ k₂ (nowhere b₂.heap))
              (λ b₃ k₃.
                (rw (find-put_self ab es, deleted_line) refl, rw (remove-put_self ab es) at k₃))))
