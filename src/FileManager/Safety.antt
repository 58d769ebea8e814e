-- ===== src/FileManager/Safety.antt =====
-- 09_vfs/mc: what every key keeps, and that enter finds the entry and the slash that it looks for.
use eltex_homeworks.Prelude.{
  ◌+◌, ◌-◌, ◌≤◌, ◌<◌, ◌≡◌, not, Option, none, some, ◌∷◌, if◌then◌else◌, length, get_elem?,
}
use eltex_homeworks.Libc.Text.{Text}
use eltex_homeworks.FileManager.Panel.{Panel, path_max, slash}
use eltex_homeworks.FileManager.Keys.{Panels}

abbrev pub Absolute : Text → Type 0
Absolute path = (rest : Text) × (path ≡ slash ∷ rest)

-- The path is absolute and fits into its array, and an entry is selected, or the first place if there is
-- none.
abbrev pub WellFormed : Panel → Type 0
WellFormed p = Absolute p.path × (p.selected ≤ length p.entries - 1) × (length p.path < path_max)

-- The path of the selected entry fits into PATH_MAX bytes.
abbrev pub IsShallow : Panel → Type 0
IsShallow p =
    (entry : Text)
    → get_elem? p.entries p.selected ≡ some entry
    → length p.path + length entry < path_max

-- The result of a key on a panel.
abbrev Keeps : Panel → Option Panel → Type 0
Keeps p none = ⊥
Keeps p (some q) = WellFormed q × (q.active ≡ p.active)

-- Both panels are well formed, and exactly the one that the keys go to is drawn as active.
abbrev pub Good : Panels → Type 0
Good s =
    WellFormed s.left
    × WellFormed s.right
    × (s.left.active ≡ not s.second)
    × (s.right.active ≡ s.second)

abbrev pub active_panel : Panels → Panel
active_panel s = if s.second then s.right else s.left

abbrev pub IsGood : Option Panels → Type 0
IsGood none = ⊥
IsGood (some s) = Good s
