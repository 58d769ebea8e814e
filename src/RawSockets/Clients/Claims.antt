-- ===== src/RawSockets/Clients/Claims.antt =====
-- The lookups of 21_raw_sockets/server.c in its table of clients, and the claim of a free entry.
use eltex_homeworks.Prelude.{
  ℕ, zero, suc, ◌+◌, ◌≡◌, refl, sym, subst, inl, inr, true, false, ◌&&◌, Option, none, some, List,
  [], ◌∷◌, arith, if◌then◌else◌, Option-cases, Bool-cases,
}
use eltex_homeworks.RawSockets.Clients.{
  Key, Client, client_equal, find_client, claim, modify, reset_client, count_message, counter_at,
}

-- The counter of the first used entry of `k`.
unfoldable pub lookup : Key → List Client → Option ℕ
lookup k [] = none
lookup k (c ∷ cs) = if c.used && client_equal c.key k then some c.counter else lookup k cs

-- No client has two entries.
abbrev pub Distinct : List Client → Type 0
Distinct [] = Unit {0}
Distinct (c ∷ cs) = (c.used ≡ true → find_client c.key cs ≡ none) × Distinct cs

pub find_client-none : (k : Key) (cs : List Client) → find_client k cs ≡ none → lookup k cs ≡ none
unfolding find_client lookup
find_client-none k [] h = refl
find_client-none k (c ∷ cs) h = ground (arith, find_client-none k cs)

-- Two equal keys are found alike.
find_client-equal :
    (j k : Key) (cs : List Client) → client_equal j k ≡ true → find_client j cs ≡ find_client k cs
unfolding find_client
find_client-equal j k [] e = refl
find_client-equal j k (c ∷ cs) e = ground (arith, find_client-equal j k cs e)

module _ (k : Key) where
  -- Counting a message at the index of `k`.
  pub lookup-count_message :
      (j : Key) (i : ℕ) (cs : List Client)
      → find_client k cs ≡ some i
      → lookup j (count_message i cs)
        ≡ (if client_equal j k then some (counter_at i cs + 1) else lookup j cs)
  unfolding find_client lookup count_message modify counter_at
  lookup-count_message j i [] h = cc
  lookup-count_message j zero (c ∷ cs) h = ground arith
  lookup-count_message j (suc i) (c ∷ cs) h = ground (arith, lookup-count_message j i cs)

  pub lookup-reset_client :
      (j : Key) (i : ℕ) (cs : List Client)
      → Distinct cs
      → find_client k cs ≡ some i
      → lookup j (reset_client i cs) ≡ (if client_equal j k then none else lookup j cs)
  unfolding find_client lookup reset_client modify
  lookup-reset_client j i [] d h = cc
  lookup-reset_client j zero (c ∷ cs) d h =
      ground (arith, find_client-none j cs, find_client-equal j c.key cs)
  lookup-reset_client j (suc i) (c ∷ cs) d h = ground (arith, lookup-reset_client j i cs d.1)

  pub lookup-counter_at :
      (i : ℕ) (cs : List Client) → find_client k cs ≡ some i → lookup k cs ≡ some (counter_at i cs)
  unfolding find_client lookup counter_at
  lookup-counter_at i [] h = cc
  lookup-counter_at zero (c ∷ cs) h = ground arith
  lookup-counter_at (suc i) (c ∷ cs) h = ground (arith, lookup-counter_at i cs)

-- Every entry is in use.
abbrev pub IsFull : List Client → Type 0
IsFull [] = Unit {0}
IsFull (c ∷ cs) = (c.used ≡ true) × IsFull cs

-- A claim fails on a full table only, and otherwise adds `k` with the counter 0 and nothing else.
abbrev pub Claims : Key → List Client → Option (ℕ × List Client) → Type 0
Claims k cs none = IsFull cs
Claims k cs (some (i, ds)) =
    (find_client k ds ≡ some i)
    × ((j : Key) → lookup j ds ≡ (if client_equal j k then some 0 else lookup j cs))
    × ((j : Key) → client_equal j k ≡ false → find_client j cs ≡ none → find_client j ds ≡ none)
    × Distinct ds

module _ (k : Key) (c : Client) (cs : List Client) (other : find_client k (c ∷ cs) ≡ none) where
  claim_free :
      c.used ≡ false
      → claim k (c ∷ cs) ≡ some (0, record { key = k; counter = 0; used = true } ∷ cs)
  unfolding claim
  claim_free free = ground arith

  claim_full : c.used ≡ true → claim k cs ≡ none → claim k (c ∷ cs) ≡ none
  unfolding claim
  claim_full used e = ground arith

  claim_later :
      (i : ℕ) (ds : List Client)
      → c.used ≡ true
      → claim k cs ≡ some (i, ds)
      → claim k (c ∷ cs) ≡ some (suc i, c ∷ ds)
  unfolding claim
  claim_later i ds used e = ground arith

  other-tail : find_client k cs ≡ none
  unfolding find_client
  other-tail = ground arith

  other-head : c.used ≡ true → client_equal c.key k ≡ false
  unfolding find_client
  other-head used = ground arith

  Claims-free :
      c.used ≡ false
      → find_client k cs ≡ none
      → Distinct cs
      → Claims k (c ∷ cs) (some (0, record { key = k; counter = 0; used = true } ∷ cs))
  unfolding find_client lookup
  Claims-free free h d = (ground arith, λ j. ground arith, λ j e n. ground arith, (λ _. h, d))

  Claims-later :
      (i : ℕ) (ds : List Client)
      → c.used ≡ true
      → find_client c.key cs ≡ none
      → Claims k cs (some (i, ds))
      → Claims k (c ∷ cs) (some (suc i, c ∷ ds))
  unfolding find_client lookup
  Claims-later i ds used d h =
      let ne = other-head used in
      (
        ground (arith, h.0),
        λ j. ground (arith, h.1 j),
        λ j e n. ground (arith, h.2 j e),
        (λ _. h.2 c.key ne d, h.3),
      )

pub claim-Claims :
    (k : Key) (cs : List Client) → find_client k cs ≡ none → Distinct cs → Claims k cs (claim k cs)
claim-Claims k [] h d = unfold claim in tt
claim-Claims k (c ∷ cs) h d = elim (Bool-cases c.used) [
  | inr free ↦
      subst (Claims k (c ∷ cs)) (sym (claim_free k c cs h free))
        (Claims-free k c cs h free (other-tail k c cs h) d.1)
  | inl used ↦
      let rest = claim-Claims k cs (other-tail k c cs h) d.1 in
      elim (Option-cases (claim k cs)) [
        | inl e ↦
            subst (Claims k (c ∷ cs)) (sym (claim_full k c cs h used e))
              (used, subst (Claims k cs) e rest)
        | inr ((i, ds), e) ↦
            subst (Claims k (c ∷ cs)) (sym (claim_later k c cs h i ds used e))
              (Claims-later k c cs h i ds used (d.0 used) (subst (Claims k cs) e rest))
      ]
]
