-- ===== src/FileManager/Examples.antt =====
-- 09_vfs/mc: tests, and the theorems at concrete inputs.
use eltex_homeworks.Prelude.{
  ℕ, ◌<◌, ◌≡◌, refl, true, false, some, [], ◌∷◌, arith, if◌then◌else◌, get_elem?, replicate,
}
use eltex_homeworks.Libc.Text.{codes, str_eq, str_lt}
use eltex_homeworks.FileManager.Panel.{
  DirEntry, FileSystem, Panel, slash, root, label, allocated, written, labels, insert_entry,
  sort_entries, entries_of, index_of, change_dir, draw_rows,
}
use eltex_homeworks.FileManager.Keys.{Panels}
use eltex_homeworks.FileManager.RoundTrip.{change_dir-change_dir}
use eltex_homeworks.FileManager.Window.{draw_rows-selected}

abbrev disk_home : DirEntry
disk_home = record { d_name = codes "home"; is_dir = true }

abbrev disk : FileSystem
unfolding str_eq
disk path =
    if str_eq path root
    then some (
        record { d_name = codes "."; is_dir = true }
        ∷ record { d_name = codes "notes"; is_dir = false }
        ∷ disk_home
        ∷ [])
    else some []

abbrev at_home : Panel
at_home = record {
  path = root;
  entries = codes ".." ∷ codes "/home" ∷ codes "notes" ∷ [];
  selected = 1;
  scroll = 0;
  active = true;
}

listed : at_home.entries ≡ entries_of (disk root)
unfolding disk entries_of labels label sort_entries insert_entry str_eq str_lt
listed = refl

found : index_of (slash ∷ codes "home") at_home.entries ≡ some 1
unfolding index_of str_eq
found = refl

change_dir-change_dir_example :
    (q : Panel) × (change_dir disk at_home ≡ some q)
    × (q.selected ≡ 0)
    × (change_dir disk q ≡ some at_home)
change_dir-change_dir_example =
    change_dir-change_dir disk at_home (codes "home") [] 0 refl listed found refl
      (refl, (refl, (refl, (refl, tt))))

abbrev both : Panels
both = record { left = at_home; right = record at_home { active = false }; second = false }

-- The block of a directory's entry is one byte too short.
home_overruns : (written disk_home ≡ 6) × (allocated disk_home ≡ 5)
unfolding written allocated label
home_overruns = (refl, refl)

abbrev far : Panel
far = record {
  path = root;
  entries = replicate 30 (codes "file");
  selected = 25;
  scroll = 2;
  active = true;
}

draw_rows-selected_example :
    (row : ℕ) × (row < 20) × (get_elem? (draw_rows 20 far) row ≡ some (codes "file", true))
draw_rows-selected_example = draw_rows-selected 20 far (codes "file") (omega arith) refl refl
