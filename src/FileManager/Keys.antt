-- ===== src/FileManager/Keys.antt =====
-- 09_vfs/mc/main.c: the two panels and the keys.
use eltex_homeworks.Prelude.{
  ◌+◌, ◌-◌, Bool, true, false, not, Option, none, some, ltb, if◌then◌else◌, length,
}
use eltex_homeworks.Libc.Text.{Text}
use eltex_homeworks.FileManager.Panel.{FileSystem, Panel, panel_init, load_dir, change_dir}

pub data Key : Type 0 where
  key_up : Key
  key_down : Key
  key_enter : Key
  tab : Key
  any_other : Key

-- `second` is active_panel.
pub record Panels : Type 0 where
  pub left : Panel
  pub right : Panel
  pub second : Bool

unfoldable pub open_panels : FileSystem → Option Text → Panels
open_panels fs cwd = record {
  left = load_dir fs (record (panel_init cwd) { active = true });
  right = load_dir fs (panel_init cwd);
  second = false;
}

unfoldable pub move_up : Panel → Panel
move_up p = if ltb 0 p.selected then record p { selected = p.selected - 1 } else p

unfoldable pub move_down : Panel → Panel
move_down p =
    if ltb (p.selected + 1) (length p.entries) then record p { selected = p.selected + 1 } else p

-- A key on the active panel; `none` as in change_dir.
unfoldable pub press_panel : FileSystem → Key → Panel → Option Panel
press_panel fs key_up p = some (move_up p)
press_panel fs key_down p = some (move_down p)
press_panel fs key_enter p = change_dir fs p
press_panel fs tab p = some p
press_panel fs any_other p = some p

unfoldable pub panel_change_active : Panels → Panels
panel_change_active s = record s {
  left = record s.left { active = not s.left.active };
  right = record s.right { active = not s.right.active };
}

unfoldable pub on_active : (Panel → Option Panel) → Panels → Option Panels
on_active f s =
    if s.second
    then elim (f s.right) [ none ↦ none | some p ↦ some (record s { right = p }) ]
    else elim (f s.left) [ none ↦ none | some p ↦ some (record s { left = p }) ]

-- The switch of main, for a key that does not end the loop. Drawing, before it, changes only the scrolls.
unfoldable pub press : FileSystem → Key → Panels → Option Panels
press fs tab s = some (record (panel_change_active s) { second = not s.second })
press fs k s = on_active (press_panel fs k) s
