-- ===== src/Subscribers/Walking.antt =====
-- 06_dynamic_memory/list.c: the loops over a whole list (find_by_name, print_list, free_list).
use eltex_homeworks.Prelude.{
  ℕ, zero, suc, ◌≤◌, ◌≡◌, refl, ap, ◌∙◌, true, Option, none, some, [], ◌∷◌, arith, length,
}
use eltex_homeworks.Prelude.Memory.{◌>>=◌, free}
use eltex_homeworks.Libc.Text.{Text}
use eltex_homeworks.Subscribers.Linked.{Abonent, Heap, find_by_name, free_list, listed}
use eltex_homeworks.Subscribers.Cells.{
  Cells, first, abonents, among, Distinct, memory, Represents, memory-outside,
}
use eltex_homeworks.Subscribers.Insert.{differ}
use eltex_homeworks.Subscribers.Order.{find}

-- The nodes of a part of the list, behind `p`.
abbrev Nodes : Heap → Option ℕ → Cells → Type 0
Nodes h p cs = (b : ℕ) → among b cs ≡ true → h b ≡ memory p cs b

module _ (h : Heap) (p : Option ℕ) (c : ℕ) (e : Abonent) (cs : Cells) where
  at_first :
      Nodes h p ((c, e) ∷ cs) → h c ≡ some (record { abonent = e; prev = p; next = first cs })
  unfolding memory
  at_first n = n c (ground arith) ∙ ground arith

  behind_first : Distinct ((c, e) ∷ cs) → Nodes h p ((c, e) ∷ cs) → Nodes h (some c) cs
  unfolding memory
  behind_first (dc, d) n b i = ground (arith, n b (ground arith), differ b c cs i dc)

find_by_name-Nodes :
    (fuel : ℕ) (name : Text) (h : Heap) (p : Option ℕ) (cs : Cells)
    → Distinct cs
    → Nodes h p cs
    → length cs ≤ fuel
    → find_by_name fuel name h (first cs) ≡ some (find name (abonents cs))
unfolding find_by_name
find_by_name-Nodes zero name h p [] d n enough = refl
find_by_name-Nodes (suc fuel) name h p [] d n enough = refl
find_by_name-Nodes zero name h p ((c, e) ∷ cs) d n enough = absurd (omega arith)
find_by_name-Nodes (suc fuel) name h p ((c, e) ∷ cs) d n enough =
    let ih =
      find_by_name-Nodes fuel name h (some c) cs d.1 (behind_first h p c e cs d n) (omega arith) in
    rw (at_first h p c e cs n, ◌>>=◌) (ground (arith, ih))

listed-Nodes :
    (fuel : ℕ) (h : Heap) (p : Option ℕ) (cs : Cells)
    → Distinct cs
    → Nodes h p cs
    → length cs ≤ fuel
    → listed fuel h (first cs) ≡ some (abonents cs)
unfolding listed
listed-Nodes zero h p [] d n enough = refl
listed-Nodes (suc fuel) h p [] d n enough = refl
listed-Nodes zero h p ((c, e) ∷ cs) d n enough = absurd (omega arith)
listed-Nodes (suc fuel) h p ((c, e) ∷ cs) d n enough =
    let ih = listed-Nodes fuel h (some c) cs d.1 (behind_first h p c e cs d n) (omega arith) in
    rw (at_first h p c e cs n, ◌>>=◌) (rw (ih, ◌>>=◌) refl)

free_list-Nodes :
    (fuel : ℕ) (h : Heap) (p : Option ℕ) (cs : Cells)
    → Distinct cs
    → ((b : ℕ) → h b ≡ memory p cs b)
    → length cs ≤ fuel
    → (h' : Heap) × (free_list fuel h (first cs) ≡ some h') × ((b : ℕ) → h' b ≡ none)
unfolding free_list
free_list-Nodes zero h p [] d exact enough = (h, refl, unfold memory in exact)
free_list-Nodes (suc fuel) h p [] d exact enough = (h, refl, unfold memory in exact)
free_list-Nodes zero h p ((c, e) ∷ cs) d exact enough = absurd (omega arith)
free_list-Nodes (suc fuel) h p ((c, e) ∷ cs) (dc, d) exact enough =
    let (h', done, clean) =
      free_list-Nodes fuel (free c h) (some c) cs d
        (λ b. unfold free memory in ground (arith, exact b, memory-outside (some c) cs c dc))
        (omega arith) in
    (h', rw (at_first h p c e cs (λ b i. exact b), ◌>>=◌) done, clean)

module _ (fuel : ℕ) (h : Heap) (head : Option ℕ) (cs : Cells) (rep : Represents h head cs)
    (enough : length cs ≤ fuel) where
  pub find_by_name-find :
      (name : Text) → find_by_name fuel name h head ≡ some (find name (abonents cs))
  find_by_name-find name =
      ap (find_by_name fuel name h) rep.at_head
      ∙ find_by_name-Nodes fuel name h none cs rep.distinct (λ b i. rep.exact b) enough

  pub listed-abonents : listed fuel h head ≡ some (abonents cs)
  listed-abonents =
      ap (listed fuel h) rep.at_head
      ∙ listed-Nodes fuel h none cs rep.distinct (λ b i. rep.exact b) enough

  pub free_list-frees : (h' : Heap) × (free_list fuel h head ≡ some h') × ((b : ℕ) → h' b ≡ none)
  free_list-frees =
      let (h', done, clean) = free_list-Nodes fuel h none cs rep.distinct rep.exact enough in
      (h', ap (free_list fuel h) rep.at_head ∙ done, clean)
