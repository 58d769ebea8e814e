-- ===== src/FileManager/Panel.antt =====
-- 09_vfs/mc/mc.c. The file system is an argument: what opendir, readdir and stat answer for a path.
-- `none` as a result stands for the use of a NULL pointer or of an entry that is not there. Texts have any
-- length here: what is written into the blocks of the entries is counted beside it (allocated, written, overrun), and
-- the arrays of PATH_MAX bytes hold paths, and parts of paths, that the panel has before or after.
use eltex_homeworks.Prelude.{
  ℕ, suc, ◌+◌, ◌-◌, Bool, false, ◌&&◌, ◌||◌, Option, none, some, List, [], ◌∷◌, ◌++◌, leb, ltb,
  ◌==◌, if◌then◌else◌, length, get_elem?, take, drop,
}
use eltex_homeworks.Libc.Text.{Text, codes, str_eq, str_lt}

pub record DirEntry : Type 0 where
  pub d_name : Text
  pub is_dir : Bool

abbrev pub FileSystem : Type 0
FileSystem = Text → Option (List DirEntry)

-- `entries` is NULL exactly when it is empty, and entry_count is its length.
pub record Panel : Type 0 where
  pub path : Text
  pub entries : List Text
  pub selected : ℕ
  pub scroll : ℕ
  pub active : Bool

-- '/'
abbrev pub slash : ℕ
slash = 47

abbrev pub root : Text
root = slash ∷ []

-- PATH_MAX of linux/limits.h
abbrev pub path_max : ℕ
path_max = 4096

-- The environment variable PWD, or `none`.
unfoldable pub panel_init : Option Text → Panel
panel_init cwd = record {
  path = elim cwd [ none ↦ root | some dir ↦ take (path_max - 1) dir ];
  entries = [];
  selected = 0;
  scroll = 0;
  active = false;
}

-- What the panel shows of an entry: "/%s" for a directory, "%s" for any other file.
unfoldable pub label : DirEntry → Text
label d = if d.is_dir then slash ∷ d.d_name else d.d_name

-- The size of the block that malloc gives for an entry, and how many bytes sprintf writes into it.
unfoldable pub allocated : DirEntry → ℕ
allocated d = length d.d_name + 1

unfoldable pub written : DirEntry → ℕ
written d = length (label d) + 1

-- The loop of readdir.
unfoldable pub labels : List DirEntry → List Text
labels [] = []
labels (d ∷ ds) =
    let rest = labels ds in
    if str_eq d.d_name (codes ".") || str_eq d.d_name (codes "..") then rest else label d ∷ rest

-- qsort by strcmp
unfoldable pub insert_entry : Text → List Text → List Text
insert_entry x [] = x ∷ []
insert_entry x (y ∷ ys) =
    let rest = insert_entry x ys in if str_lt y x then y ∷ rest else x ∷ y ∷ ys

unfoldable pub sort_entries : List Text → List Text
sort_entries [] = []
sort_entries (x ∷ xs) = insert_entry x (sort_entries xs)

unfoldable pub entries_of : Option (List DirEntry) → List Text
entries_of none = []
entries_of (some ds) = codes ".." ∷ sort_entries (labels ds)

-- How many bytes its loop writes behind the blocks of the entries.
unfoldable pub overrun : List DirEntry → ℕ
overrun [] = 0
overrun (d ∷ ds) =
    let rest = overrun ds in
    if str_eq d.d_name (codes ".") || str_eq d.d_name (codes "..")
    then rest
    else (written d - allocated d) + rest

-- Without the effect of an overrun, which is undefined.
unfoldable pub load_dir : FileSystem → Panel → Panel
load_dir fs p = record p { entries = entries_of (fs p.path) }

-- strrchr(path, '/'): the text before the last slash, and the text from it on.
unfoldable pub last_slash : Text → Option (Text × Text)
last_slash [] = none
last_slash (c ∷ s) = elim (last_slash s) [
  | none ↦ if c == slash then some ([], c ∷ s) else none
  | some (before, from) ↦ some (c ∷ before, from)
]

-- The loop that looks for the directory that was left.
unfoldable pub index_of : Text → List Text → Option ℕ
index_of x [] = none
index_of x (y ∷ ys) =
    let rest = index_of x ys in
    if str_eq y x then some 0 else elim rest [ none ↦ none | some i ↦ some (suc i) ]

-- The branch for "..": behind strrchr, and whole.
unfoldable pub arrive : FileSystem → Text → Text → Panel → Panel
arrive fs before prev_dir p =
    let q = load_dir fs (record p { path = if length before == 0 then root else before }) in
    record q { selected = elim (index_of prev_dir q.entries) [ none ↦ p.selected | some i ↦ i ] }

unfoldable pub go_up : FileSystem → Panel → Option Panel
go_up fs p = elim (last_slash p.path) [
  | none ↦ none
  | some (before, prev_dir) ↦ some (arrive fs before prev_dir p)
]

-- The branch for a directory.
unfoldable pub go_down : FileSystem → Text → Panel → Panel
go_down fs entry p =
    record (load_dir fs
      (record p { path = if str_eq p.path root then entry else p.path ++ entry })) { selected = 0 }

abbrev pub is_directory : Text → Bool
is_directory [] = false
is_directory (c ∷ s) = c == slash

unfoldable pub change_dir : FileSystem → Panel → Option Panel
change_dir fs p = if p.selected == 0 then go_up fs p else elim (get_elem? p.entries p.selected) [
  | none ↦ none
  | some entry ↦ if is_directory entry then some (go_down fs entry p) else some p
]

-- draw_panel moves the scroll, with max_show rows.
unfoldable pub scroll_to : ℕ → Panel → Panel
scroll_to max_show p =
    if ltb p.selected p.scroll
    then record p { scroll = p.selected }
    else if leb (p.scroll + max_show) p.selected
    then record p { scroll = p.selected - max_show + 1 }
    else p

-- Its rows: the entries with whether they are highlighted, `i` being the index of the first one.
unfoldable pub rows : Bool → ℕ → ℕ → List Text → List (Text × Bool)
rows active selected i [] = []
rows active selected i (e ∷ es) = (e, active && (i == selected)) ∷ rows active selected (i + 1) es

unfoldable pub draw_rows : ℕ → Panel → List (Text × Bool)
draw_rows max_show p =
    let q = scroll_to max_show p in
    rows q.active q.selected q.scroll (take max_show (drop q.scroll q.entries))

-- Its title, in a window of `w` columns.
unfoldable pub title : ℕ → Text → Text
title w path =
    if ltb (w - 4) (length path)
    then codes "[~" ++ drop (length path - (w - 4 - 1)) path ++ codes "]"
    else codes "[" ++ path ++ codes "]"
