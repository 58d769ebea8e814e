-- ===== src/FileManager/RoundTrip.antt =====
-- 09_vfs/mc/mc.c, change_dir: into a directory and back.
use eltex_homeworks.Prelude.{
  ℕ, zero, suc, ◌≡◌, refl, sym, ap, subst, ◌∙◌, inl, inr, true, false, none, some, List, [], ◌∷◌,
  ◌++◌, arith, ◌==◌, if◌then◌else◌, length, get_elem?, Bool-cases, Option-cases,
}
use eltex_homeworks.Libc.Text.{Text, str_eq, str_eq_eq, HasNo}
use eltex_homeworks.FileManager.Panel.{
  FileSystem, Panel, slash, root, entries_of, load_dir, last_slash, index_of, arrive, go_up,
  go_down, change_dir,
}

last_slash-none : (s : Text) → HasNo slash s → last_slash s ≡ none
unfolding last_slash
last_slash-none [] h = refl
last_slash-none (c ∷ s) h = ground (arith, last_slash-none s)

last_slash-append : (a b : Text) → HasNo slash b → last_slash (a ++ slash ∷ b) ≡ some (a, slash ∷ b)
unfolding last_slash
last_slash-append [] b h = rw (last_slash-none b h) refl
last_slash-append (c ∷ a) b h = rw (last_slash-append a b h) refl

index_of-get_elem? :
    (x : Text) (ys : List Text) (i : ℕ) → index_of x ys ≡ some i → get_elem? ys i ≡ some x
unfolding index_of
index_of-get_elem? x [] i e = cc
index_of-get_elem? x (y ∷ ys) zero e = elim (Bool-cases (str_eq y x)) [
  | inl same ↦ ap some (str_eq_eq y x same)
  | inr other ↦ elim (Option-cases (index_of x ys)) [
    | inl e' ↦ ground arith
    | inr (j, e') ↦ ground arith
  ]
]
index_of-get_elem? x (y ∷ ys) (suc i) e = ground (arith, index_of-get_elem? x ys i)

pub go_up-slash :
    (fs : FileSystem) (p : Panel) (before prev_dir : Text)
    → last_slash p.path ≡ some (before, prev_dir)
    → go_up fs p ≡ some (arrive fs before prev_dir p)
unfolding go_up
go_up-slash fs p before prev_dir at = rw (at, go_up) refl

pub change_dir-first : (fs : FileSystem) (p : Panel) → p.selected ≡ 0 → change_dir fs p ≡ go_up fs p
unfolding change_dir
change_dir-first fs p e = let first : (p.selected == 0) ≡ true = ground arith in rw first refl

-- A path that begins with a slash is not empty.
not_empty :
    (path rest : Text) → path ≡ slash ∷ rest → (if length path == 0 then root else path) ≡ path
not_empty path rest e = subst (λ t. (if length t == 0 then root else t) ≡ t) (sym e) (ground arith)

module _ (fs : FileSystem) (p : Panel) where
  panel_eq :
      (q : Panel)
      → q.path ≡ p.path
      → q.entries ≡ p.entries
      → q.selected ≡ p.selected
      → q.scroll ≡ p.scroll
      → q.active ≡ p.active
      → q ≡ p
  panel_eq q e1 e2 e3 e4 e5 =
      λ i. record { path = e1 i; entries = e2 i; selected = e3 i; scroll = e4 i; active = e5 i }

  -- ".." from a directory whose path ends in the text `prev_dir`.
  go_up-from :
      (q : Panel) (before prev_dir : Text) (i : ℕ)
      → last_slash q.path ≡ some (before, prev_dir)
      → (if length before == 0 then root else before) ≡ p.path
      → p.entries ≡ entries_of (fs p.path)
      → index_of prev_dir p.entries ≡ some i
      → p.selected ≡ i
      → q.scroll ≡ p.scroll
      → q.active ≡ p.active
      → go_up fs q ≡ some p
  unfolding arrive load_dir
  go_up-from q before prev_dir i at up entries found sel sc act =
      let same : entries_of (fs (if length before == 0 then root else before)) ≡ p.entries =
        ap (λ l. entries_of (fs l)) up ∙ sym entries in
      go_up-slash fs q before prev_dir at
      ∙ ap some (
          panel_eq _ up same
            (ap (λ o. elim o [ none ↦ q.selected | some k ↦ k ])
                (ap (index_of prev_dir) same ∙ found)
              ∙ sym sel)
            sc act)

  change_dir-down :
      (entry : Text) (i : ℕ)
      → p.selected ≡ suc i
      → get_elem? p.entries (suc i) ≡ some (slash ∷ entry)
      → change_dir fs p ≡ some (go_down fs (slash ∷ entry) p)
  unfolding change_dir
  change_dir-down entry i sel e =
      let not_first : (p.selected == 0) ≡ false = ground arith in
      let there : get_elem? p.entries p.selected ≡ some (slash ∷ entry) =
        ap (get_elem? p.entries) sel ∙ e in
      rw (not_first, there) refl

go_down-path :
    (fs : FileSystem) (p : Panel) (entry : Text)
    → (go_down fs entry p).path ≡ (if str_eq p.path root then entry else p.path ++ entry)
unfolding go_down load_dir
go_down-path fs p entry = refl

-- From a panel that shows its directory, with a subdirectory selected: change_dir goes into it and
-- selects "..", and change_dir again comes back to the same panel, with the same directory, entries and
-- selection. File names have no slash, and the subdirectory is listed once.
pub change_dir-change_dir :
    (fs : FileSystem) (p : Panel) (name rest : Text) (i : ℕ)
    → p.path ≡ slash ∷ rest
    → p.entries ≡ entries_of (fs p.path)
    → index_of (slash ∷ name) p.entries ≡ some (suc i)
    → p.selected ≡ suc i
    → HasNo slash name
    → (q : Panel) × (change_dir fs p ≡ some q) × (q.selected ≡ 0) × (change_dir fs q ≡ some p)
change_dir-change_dir fs p name rest i path entries found sel clean =
    let at = index_of-get_elem? (slash ∷ name) p.entries (suc i) found in
    (
      go_down fs (slash ∷ name) p,
      change_dir-down fs p name i sel at,
      unfold go_down in refl,
      change_dir-first fs (go_down fs (slash ∷ name) p) (unfold go_down in refl)
          ∙ elim (Bool-cases (str_eq p.path root)) [
            | inl top ↦
                go_up-from fs p (go_down fs (slash ∷ name) p) [] (slash ∷ name) (suc i)
                  (ap last_slash (
                      go_down-path fs p (slash ∷ name)
                      ∙ ap (λ b. if b then slash ∷ name else p.path ++ slash ∷ name) top)
                    ∙ last_slash-append [] name clean)
                  (sym (str_eq_eq p.path root top)) entries found sel
                  (unfold go_down load_dir in refl) (unfold go_down load_dir in refl)
            | inr below ↦
                go_up-from fs p (go_down fs (slash ∷ name) p) p.path (slash ∷ name) (suc i)
                  (ap last_slash (
                      go_down-path fs p (slash ∷ name)
                      ∙ ap (λ b. if b then slash ∷ name else p.path ++ slash ∷ name) below)
                    ∙ last_slash-append p.path name clean)
                  (not_empty p.path rest path) entries found sel (unfold go_down load_dir in refl)
                  (unfold go_down load_dir in refl)
          ],
    )
