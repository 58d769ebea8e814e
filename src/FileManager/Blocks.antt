-- ===== src/FileManager/Blocks.antt =====
-- 09_vfs/mc/mc.c, load_dir: the blocks of the entries.
use eltex_homeworks.Prelude.{
  ℕ, suc, ◌-◌, ◌≡◌, refl, inl, inr, ◌||◌, List, [], ◌∷◌, arith, if◌then◌else◌, Bool-cases,
}
use eltex_homeworks.Libc.Text.{codes, str_eq}
use eltex_homeworks.FileManager.Panel.{DirEntry, label, allocated, written, overrun}

-- The directories that the panel lists.
unfoldable pub subdirectories : List DirEntry → ℕ
subdirectories [] = 0
subdirectories (d ∷ ds) =
    let rest = subdirectories ds in
    if str_eq d.d_name (codes ".") || str_eq d.d_name (codes "..")
    then rest
    else if d.is_dir
    then suc rest
    else rest

written-allocated : (d : DirEntry) → written d - allocated d ≡ (if d.is_dir then 1 else 0)
unfolding written allocated label
written-allocated d = elim (Bool-cases d.is_dir) [
  | inl dir ↦ rw dir (omega arith)
  | inr file ↦ rw file (omega arith)
]

-- One byte for each directory that is listed, and none for the other files.
overrun-subdirectories : (ds : List DirEntry) → overrun ds ≡ subdirectories ds
unfolding overrun subdirectories
overrun-subdirectories [] = refl
overrun-subdirectories (d ∷ ds) = ground (arith, overrun-subdirectories ds, written-allocated d)
