-- ===== src/Subscribers/Linked.antt =====
-- 06_dynamic_memory/list.h and list.c: a doubly linked list of subscribers. `none` as a result stands for
-- the use of a NULL or dangling pointer.
use eltex_homeworks.Prelude.{
  ℕ, zero, suc, Bool, true, false, ◌&&◌, Option, none, some, List, [], ◌∷◌, ◌==◌, if◌then◌else◌,
  not, is_some,
}
use eltex_homeworks.Prelude.Memory.{◌>>=◌, write, free, update}
use eltex_homeworks.Libc.Text.{Text, str_eq, str_lt}

pub record Abonent : Type 0 where
  pub name : Text
  pub second_name : Text
  pub tel : Text

pub record ListNode : Type 0 where
  pub abonent : Abonent
  pub prev : Option ℕ
  pub next : Option ℕ

abbrev pub Heap : Type 0
Heap = ℕ → Option ListNode

-- Behind malloc, which gave the address `a`.
unfoldable pub create_node : ℕ → Abonent → Heap → Heap
create_node a ab = write a (record { abonent = ab; prev = none; next = none })

-- The loop that looks for the place, from `curr` on. It is never NULL: the loop begins at a head that
-- is not NULL and goes on only to a next node that is there.
unfoldable pub walk : ℕ → Text → Heap → ℕ → Option ℕ
walk zero name h curr = none
walk (suc fuel) name h curr = do
  c ← h curr
  let further : Option ℕ = elim c.next [ none ↦ some curr | some b ↦ walk fuel name h b ]
  if str_lt c.abonent.name name then further else some curr

abbrev pub set_prev : Option ℕ → ListNode → ListNode
set_prev p n = record n { prev = p }

abbrev pub set_next : Option ℕ → ListNode → ListNode
set_next p n = record n { next = p }

-- Each gives the heap and the head.
unfoldable pub link_front : ℕ → ℕ → Heap → Option (Heap × Option ℕ)
link_front a head h = do
  h ← update a (set_next (some head)) h
  h ← update head (set_prev (some a)) h
  some (h, some a)

unfoldable pub link_end : ℕ → ℕ → ℕ → Heap → Option (Heap × Option ℕ)
link_end a head curr h = do
  h ← update curr (set_next (some a)) h
  h ← update a (set_prev (some curr)) h
  some (h, some head)

-- if (p) p->next = a;
unfoldable pub next_of_prev : Option ℕ → (ListNode → ListNode) → Heap → Option Heap
next_of_prev none f h = some h
next_of_prev (some p) f h = update p f h

unfoldable pub link_before : ℕ → ℕ → ℕ → ListNode → Heap → Option (Heap × Option ℕ)
link_before a head curr c h = do
  h ← update a (λ n. record n { prev = c.prev; next = some curr }) h
  h ← next_of_prev c.prev (set_next (some a)) h
  h ← update curr (set_prev (some a)) h
  some (h, if curr == head then some a else some head)

-- The three ways to link the node `a`, when the loop has stopped at `curr`.
unfoldable pub link_at : ℕ → Abonent → ℕ → ℕ → Heap → Option (Heap × Option ℕ)
link_at a ab head curr h = do
  c ← h curr
  if curr == head && str_lt ab.name c.abonent.name
      then link_front a head h
      else if not (is_some c.next) && str_lt c.abonent.name ab.name
      then link_end a head curr h
      else link_before a head curr c h

-- `m` is the answer of malloc, `none` for NULL; `fuel` bounds the rounds of the loop.
unfoldable pub insert : ℕ → Option ℕ → Abonent → Heap → Option ℕ → Option (Heap × Option ℕ)
insert fuel none ab h head = some (h, head)
insert fuel (some a) ab h none = some (create_node a ab h, some a)
insert fuel (some a) ab h (some head) = do
  let h = create_node a ab h
  curr ← walk fuel ab.name h head
  link_at a ab head curr h

-- The node `c` at `curr` is taken out.
unfoldable pub unlink : ℕ → ListNode → Heap → Option ℕ → Option (Heap × Option ℕ)
unlink curr c h head = do
  h ← next_of_prev c.prev (set_next c.next) h
  h ← next_of_prev c.next (set_prev c.prev) h
  some (free curr h, elim c.prev [ none ↦ c.next | some _ ↦ head ])

-- The loop of delete_node from `curr` on. The result 0 is `true`, 1 is `false`.
unfoldable pub delete_from : ℕ → Text → Heap → Option ℕ → Option ℕ → Option (Bool × Heap × Option ℕ)
delete_from fuel name h head none = some (false, h, head)
delete_from zero name h head (some curr) = none
delete_from (suc fuel) name h head (some curr) = do
  c ← h curr
  let further = delete_from fuel name h head c.next
  let found = unlink curr c h head >>= λ (h', head'). some (true, h', head')
  if str_eq c.abonent.name name then found else further

unfoldable pub delete_node : ℕ → Text → Heap → Option ℕ → Option (Bool × Heap × Option ℕ)
delete_node fuel name h head = delete_from fuel name h head head

-- The subscriber of the node that is found; the inner `none` is the result NULL.
unfoldable pub find_by_name : ℕ → Text → Heap → Option ℕ → Option (Option Abonent)
find_by_name fuel name h none = some none
find_by_name zero name h (some curr) = none
find_by_name (suc fuel) name h (some curr) = do
  c ← h curr
  let further = find_by_name fuel name h c.next
  if str_eq c.abonent.name name then some (some c.abonent) else further

unfoldable pub free_list : ℕ → Heap → Option ℕ → Option Heap
free_list fuel h none = some h
free_list zero h (some head) = none
free_list (suc fuel) h (some head) = do c ← h head; free_list fuel (free head h) c.next

-- The subscribers that print_list writes, one to a line.
unfoldable pub listed : ℕ → Heap → Option ℕ → Option (List Abonent)
listed fuel h none = some []
listed zero h (some head) = none
listed (suc fuel) h (some head) = do
  c ← h head
  rest ← listed fuel h c.next
  some (c.abonent ∷ rest)
