-- ===== src/FileManager/Window.antt =====
-- 09_vfs/mc/mc.c, draw_panel: what is in the window.
use eltex_homeworks.Prelude.{
  ℕ, zero, suc, ◌+◌, ◌-◌, ◌≤◌, ◌<◌, ◌≡◌, refl, ap, ap₂, ◌∙◌, Bool, true, ◌&&◌, some, List, [], ◌∷◌,
  arith, ◌==◌, ==_refl, get_elem?, take, drop,
}
use eltex_homeworks.Libc.Text.{Text}
use eltex_homeworks.FileManager.Panel.{Panel, scroll_to, rows, draw_rows}

-- draw_panel scrolls just as far as it must: afterwards the selected entry is in the window, and a
-- scroll that showed it already is left as it is.
scroll_to-shows :
    (max_show : ℕ) (p : Panel)
    → 0 < max_show
    → let q = scroll_to max_show p in
      (q.scroll ≤ q.selected)
      × (q.selected < q.scroll + max_show)
      × (q.selected ≡ p.selected)
      × (p.scroll ≤ p.selected → p.selected < p.scroll + max_show → q.scroll ≡ p.scroll)
unfolding scroll_to
scroll_to-shows max_show p h = ground arith

scroll_to-same :
    (max_show : ℕ) (p : Panel)
    → ((scroll_to max_show p).entries ≡ p.entries) × ((scroll_to max_show p).active ≡ p.active)
unfolding scroll_to
scroll_to-same max_show p = ground arith

get_elem?-rows :
    (active : Bool) (selected i j : ℕ) (es : List Text) (e : Text)
    → get_elem? es j ≡ some e
    → get_elem? (rows active selected i es) j ≡ some (e, active && ((i + j) == selected))
unfolding rows
get_elem?-rows active selected i j [] e h = cc
get_elem?-rows active selected i zero (x ∷ es) e h = ground arith
get_elem?-rows active selected i (suc j) (x ∷ es) e h =
    get_elem?-rows active selected (i + 1) j es e h
    ∙ ap (λ k. some (e, active && (k == selected))) (omega arith)

module _ {A : Type 0} where
  get_elem?-take : (n j : ℕ) (xs : List A) → j < n → get_elem? (take n xs) j ≡ get_elem? xs j
  get_elem?-take zero j xs h = absurd (omega arith)
  get_elem?-take (suc n) j [] h = refl
  get_elem?-take (suc n) zero (x ∷ xs) h = refl
  get_elem?-take (suc n) (suc j) (x ∷ xs) h = get_elem?-take n j xs (omega arith)

  get_elem?-drop : (k j m : ℕ) (xs : List A) → k + j ≡ m → get_elem? (drop k xs) j ≡ get_elem? xs m
  get_elem?-drop zero j m xs e = ap (get_elem? xs) (omega arith)
  get_elem?-drop (suc k) j zero [] e = absurd (omega arith)
  get_elem?-drop (suc k) j (suc m) [] e = refl
  get_elem?-drop (suc k) j zero (x ∷ xs) e = absurd (omega arith)
  get_elem?-drop (suc k) j (suc m) (x ∷ xs) e = get_elem?-drop k j m xs (omega arith)

-- In the active panel the selected entry is always drawn, and highlighted.
pub draw_rows-selected :
    (max_show : ℕ) (p : Panel) (e : Text)
    → 0 < max_show
    → p.active ≡ true
    → get_elem? p.entries p.selected ≡ some e
    → (row : ℕ) × (row < max_show) × (get_elem? (draw_rows max_show p) row ≡ some (e, true))
unfolding draw_rows
draw_rows-selected max_show p e h act at =
    let q : Panel = scroll_to max_show p in
    let (below, above, same, _) = scroll_to-shows max_show p h in
    let (es, on) = scroll_to-same max_show p in
    let row = q.selected - q.scroll in
    let here : get_elem? (take max_show (drop q.scroll q.entries)) row ≡ some e =
      get_elem?-take max_show row (drop q.scroll q.entries) (omega (arith, above, below))
      ∙ get_elem?-drop q.scroll row q.selected q.entries (omega (arith, below))
      ∙ ap₂ get_elem? es same
      ∙ at in
    (
      row,
      omega (arith, above, below),
      get_elem?-rows q.active q.selected q.scroll row (take max_show (drop q.scroll q.entries)) e
            here
          ∙ ap (λ b. some (e, b))
              (ap₂ (◌&&◌) (on ∙ act)
                (ap (λ k. k == q.selected) (omega (arith, below)) ∙ ==_refl q.selected)),
    )
