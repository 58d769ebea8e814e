-- ===== src/MqueueChat/Names.antt =====
-- 13_mqueue/chat: the names of the users, in the server and in a client.
use eltex_homeworks.Prelude.{
  ℕ, zero, suc, ◌+◌, ◌-◌, ◌≤◌, ◌<◌, ◌≡◌, refl, subst, ap, ◌∙◌, Bool, true, false, Option, none,
  some, List, [], ◌∷◌, ◌++◌, map, arith, ltb, if◌then◌else◌, length, get_elem?, take, set,
  length-set,
}
use eltex_homeworks.Prelude.Slots.{close_gap, length-close_gap, remove_at, take-close_gap, take-set}
use eltex_homeworks.Libc.Text.{Text, str_eq, str_eq_eq}
use eltex_homeworks.MqueueChat.Server.{User, Server}
use eltex_homeworks.MqueueChat.Client.{UserList, users_max, show_user, find_name, hide_user}

-- How often a name is in a list.
unfoldable pub count : Text → List Text → ℕ
count x [] = 0
count x (y ∷ ys) = let rest = count x ys in if str_eq y x then suc rest else rest

abbrev pub one_if : Bool → ℕ
one_if b = if b then 1 else 0

pub count-snoc :
    (x : Text) (ys : List Text) (y : Text)
    → count x (ys ++ y ∷ []) ≡ count x ys + one_if (str_eq y x)
unfolding count
count-snoc x [] y = ground arith
count-snoc x (z ∷ ys) y = ground (arith, count-snoc x ys y)

pub count-remove_at :
    (x : Text) (ys : List Text) (i : ℕ) (v : Text)
    → get_elem? ys i ≡ some v
    → count x (remove_at ys i) + one_if (str_eq v x) ≡ count x ys
unfolding count
count-remove_at x [] i v h = cc
count-remove_at x (y ∷ ys) zero v h =
    let e : y ≡ v = cc in
    subst
      (λ u.
        count x ys + one_if (str_eq u x) ≡ (if str_eq y x then suc (count x ys) else count x ys))
      e (ground arith)
count-remove_at x (y ∷ ys) (suc i) v h = ground (arith, count-remove_at x ys i v h)

-- The loop of remove_user: the first place of a name that is there.
pub find_name-found :
    (name : Text) (users : List Text) (n i : ℕ)
    → find_name name users n ≡ some i
    → (i < n) × (get_elem? (take n users) i ≡ some name)
unfolding find_name
find_name-found name users zero i h = cc
find_name-found name [] (suc n) i h = cc
find_name-found name (u ∷ users) (suc n) i h =
    here_or_later (λ j e. find_name-found name users n j e) (str_eq u name) refl
      (find_name name users n) refl h
  where
    here_or_later :
        ((j : ℕ)
          → find_name name users n ≡ some j
          → (j < n) × (get_elem? (take n users) j ≡ some name))
        → (b : Bool) → str_eq u name ≡ b
        → (o : Option ℕ) → find_name name users n ≡ o
        → (if b then some 0 else elim o [ none ↦ none | some j ↦ some (suc j) ]) ≡ some i
        → (i < suc n) × (get_elem? (u ∷ take n users) i ≡ some name)
    here_or_later below true same o e k =
        let first : 0 ≡ i = cc in
        subst (λ m. (m < suc n) × (get_elem? (u ∷ take n users) m ≡ some name)) first
          (omega arith, ap some (str_eq_eq u name same))
    here_or_later below false other none e k = cc
    here_or_later below false other (some j) e k =
        let further : suc j ≡ i = cc in
        let (lt, found) = below j e in
        subst (λ m. (m < suc n) × (get_elem? (u ∷ take n users) m ≡ some name)) further
          (omega arith, found)

pub find_name-none :
    (name : Text) (users : List Text) (n : ℕ)
    → find_name name users n ≡ none
    → count name (take n users) ≡ 0
unfolding find_name count
find_name-none name users zero h = refl
find_name-none name [] (suc n) h = refl
find_name-none name (u ∷ users) (suc n) h =
    neither (λ e. find_name-none name users n e) (str_eq u name) (find_name name users n) refl h
  where
    neither :
        (find_name name users n ≡ none → count name (take n users) ≡ 0)
        → (b : Bool) (o : Option ℕ) → find_name name users n ≡ o
        → (if b then some 0 else elim o [ none ↦ none | some j ↦ some (suc j) ]) ≡ none
        → (if b then suc (count name (take n users)) else count name (take n users)) ≡ 0
    neither below true o e k = cc
    neither below false none e k = below e
    neither below false (some j) e k = cc

-- The names in use, in the client and in the server.
abbrev pub shown : UserList → List Text
shown l = take l.users_count l.users

abbrev pub name_of : User → Text
name_of u = u.name

abbrev pub names : Server → List Text
names s = map name_of (take s.active_users s.users)

pub take-added {ℓ} :
    {A : Type ℓ} (n : ℕ) (xs : List A) (v : A)
    → n < length xs
    → take (n + 1) (set xs n v) ≡ take n xs ++ v ∷ []
take-added n xs v h =
    ap (λ m. take m (set xs n v)) (let e : n + 1 ≡ suc n = omega arith in e) ∙ take-set n xs v h

pub take-dropped {ℓ} :
    {A : Type ℓ} (n i : ℕ) (xs : List A)
    → i < n
    → n ≤ length xs
    → take (n - 1) (close_gap (n - 1 - i) i xs) ≡ remove_at (take n xs) i
take-dropped n i xs lt h =
    take-close_gap i (n - 1 - i) (n - 1) xs (omega arith) (omega arith)
    ∙ ap (λ m. remove_at (take m xs) i) (let e : suc (n - 1) ≡ n = omega arith in e)

pub show_user-shown :
    (name : Text) (l : UserList)
    → length l.users ≡ users_max
    → l.users_count < users_max
    → (shown (show_user name l) ≡ shown l ++ take 19 name ∷ [])
      × ((show_user name l).users_count ≡ l.users_count + 1)
      × (length (show_user name l).users ≡ users_max)
unfolding show_user
show_user-shown name l size room =
    let there : ltb l.users_count users_max ≡ true = ground arith in
    rw there (
      take-added l.users_count l.users (take 19 name) (omega arith),
      refl,
      length-set l.users l.users_count (take 19 name) ∙ size,
    )

pub hide_user-some :
    (name : Text) (i : ℕ) (l : UserList)
    → length l.users ≡ users_max
    → l.users_count ≤ users_max
    → find_name name l.users l.users_count ≡ some i
    → (shown (hide_user name l) ≡ remove_at (shown l) i)
      × ((hide_user name l).users_count + 1 ≡ l.users_count)
      × (length (hide_user name l).users ≡ users_max)
unfolding hide_user
hide_user-some name i l size few found =
    let (lt, _) = find_name-found name l.users l.users_count i found in
    rw (found, hide_user)
      (
        take-dropped l.users_count i l.users lt (omega arith),
        omega arith,
        length-close_gap (l.users_count - 1 - i) i l.users (omega arith) ∙ size,
      )
