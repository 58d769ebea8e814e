-- ===== src/RawSockets/Clients/Counts.antt =====
-- The table of clients of 21_raw_sockets/server.c as a map from clients to counters.
use eltex_homeworks.Prelude.{
  ℕ, zero, suc, ◌+◌, ◌≡◌, refl, ap, ◌∙◌, inl, inr, Bool, true, false, Option, none, some, List, [],
  ◌∷◌, arith, if◌then◌else◌, Option-cases, replicate,
}
use eltex_homeworks.RawSockets.Clients.{
  Key, Client, client_equal, unused, max_clients, no_clients, find_client, claim, get_client_index,
  modify, reset_client, count_message, counter_at, Served, too_many, forgotten, counted,
  serve_client, clients_after,
}
use eltex_homeworks.RawSockets.Clients.Claims.{
  lookup, Distinct, IsFull, Claims, claim-Claims, find_client-none, lookup-count_message,
  lookup-reset_client, lookup-counter_at,
}

find_client-count :
    (j : Key) (i : ℕ) (cs : List Client) → find_client j (count_message i cs) ≡ find_client j cs
unfolding find_client count_message modify
find_client-count j i [] = refl
find_client-count j zero (c ∷ cs) = refl
find_client-count j (suc i) (c ∷ cs) = ground (arith, find_client-count j i cs)

find_client-reset :
    (j : Key) (i : ℕ) (cs : List Client)
    → find_client j cs ≡ none
    → find_client j (reset_client i cs) ≡ none
unfolding find_client reset_client modify
find_client-reset j i [] h = refl
find_client-reset j zero (c ∷ cs) h = ground arith
find_client-reset j (suc i) (c ∷ cs) h = ground (arith, find_client-reset j i cs)

count_message-Distinct : (i : ℕ) (cs : List Client) → Distinct cs → Distinct (count_message i cs)
unfolding count_message modify
count_message-Distinct i [] d = tt
count_message-Distinct zero (c ∷ cs) d = d
count_message-Distinct (suc i) (c ∷ cs) d =
    ground (arith, find_client-count c.key i cs, count_message-Distinct i cs d.1)

reset_client-Distinct : (i : ℕ) (cs : List Client) → Distinct cs → Distinct (reset_client i cs)
unfolding reset_client modify
reset_client-Distinct i [] d = tt
reset_client-Distinct zero (c ∷ cs) d = ground arith
reset_client-Distinct (suc i) (c ∷ cs) d =
    ground (arith, find_client-reset c.key i cs, reset_client-Distinct i cs d.1)

counter_at-count :
    (k : Key) (i : ℕ) (cs : List Client)
    → find_client k cs ≡ some i
    → counter_at i (count_message i cs) ≡ counter_at i cs + 1
unfolding find_client count_message modify counter_at
counter_at-count k i [] h = cc
counter_at-count k zero (c ∷ cs) h = refl
counter_at-count k (suc i) (c ∷ cs) h = ground (arith, counter_at-count k i cs)

-- 0 for a client that is not in the table
abbrev pub counter_of : Option ℕ → ℕ
counter_of none = 0
counter_of (some n) = n

abbrev Gets : Key → List Client → Option (ℕ × List Client) → Type 0
Gets k cs none = IsFull cs × (lookup k cs ≡ none)
Gets k cs (some (i, ds)) =
    (find_client k ds ≡ some i)
    × ((j : Key)
        → lookup j ds ≡ (if client_equal j k then some (counter_of (lookup k cs)) else lookup j cs))
    × Distinct ds

lookup_equal : (j k : Key) (cs : List Client) → client_equal j k ≡ true → lookup j cs ≡ lookup k cs
unfolding lookup
lookup_equal j k [] e = refl
lookup_equal j k (c ∷ cs) e = ground (arith, lookup_equal j k cs e)

Gets-claim :
    (k : Key) (cs : List Client) (r : Option (ℕ × List Client))
    → lookup k cs ≡ none
    → Claims k cs r
    → Gets k cs r
Gets-claim k cs none e h = (h, e)
Gets-claim k cs (some (i, ds)) e h = (h.0, λ j. h.1 j ∙ ground arith, h.3)

get_client_index-Gets :
    (k : Key) (cs : List Client) → Distinct cs → Gets k cs (get_client_index k cs)
unfolding get_client_index
get_client_index-Gets k cs d = elim (Option-cases (find_client k cs)) [
  | inl e ↦
      rw (e, get_client_index)
        (Gets-claim k cs (claim k cs) (find_client-none k cs e) (claim-Claims k cs e d))
  | inr (i, e) ↦
      rw (e, get_client_index)
        (e, λ j. ground (arith, lookup-counter_at k i cs e, lookup_equal j k cs), d)
]

-- What a message of `k` does to the map: nothing, if the table is full of other clients; or it
-- removes `k` ("quit"), or counts one more message of `k` from 0 on; no other client is touched.
abbrev pub Serves : Key → Bool → List Client → Served → Type 0
Serves k is_quit cs too_many = IsFull cs × (lookup k cs ≡ none)
Serves k is_quit cs (forgotten ds) =
    (is_quit ≡ true)
    × Distinct ds
    × ((j : Key) → lookup j ds ≡ (if client_equal j k then none else lookup j cs))
Serves k is_quit cs (counted n ds) =
    (is_quit ≡ false)
    × Distinct ds
    × (n ≡ counter_of (lookup k cs) + 1)
    × ((j : Key) → lookup j ds ≡ (if client_equal j k then some n else lookup j cs))

Serves-quit :
    (k : Key) (i : ℕ) (cs ds : List Client)
    → Gets k cs (some (i, ds))
    → Serves k true cs (forgotten (reset_client i ds))
Serves-quit k i cs ds h = (
  refl,
  reset_client-Distinct i ds h.2,
  λ j. lookup-reset_client k j i ds h.2 h.0 ∙ ground (arith, h.1 j),
)

Serves-count :
    (k : Key) (i : ℕ) (cs ds : List Client)
    → Gets k cs (some (i, ds))
    → Serves k false cs (counted (counter_at i (count_message i ds)) (count_message i ds))
Serves-count k i cs ds h =
    let n = counter_at-count k i ds h.0 in
    let held : counter_at i ds ≡ counter_of (lookup k cs) =
      ground (arith, lookup-counter_at k i ds h.0, h.1 k) in
    (
      refl,
      count_message-Distinct i ds h.2,
      omega arith,
      λ j. lookup-count_message k j i ds h.0 ∙ ground (arith, h.1 j),
    )

Serves-get :
    (k : Key) (is_quit : Bool) (cs : List Client) (r : Option (ℕ × List Client))
    → Gets k cs r
    → get_client_index k cs ≡ r
    → Serves k is_quit cs (serve_client k is_quit cs)
unfolding serve_client
Serves-get k is_quit cs none h e = rw (e, serve_client) h
Serves-get k true cs (some (i, ds)) h e = rw (e, serve_client) (Serves-quit k i cs ds h)
Serves-get k false cs (some (i, ds)) h e = rw (e, serve_client) (Serves-count k i cs ds h)

-- A message of client `k` that passes the server's filter: in a table in which no client has two
-- entries, it is ignored only if every entry is in use and none is of `k`; "quit" removes `k` and any
-- other text counts one more message of `k` (the first one gives 1), which is the number in the reply;
-- the counters of all other clients stay as they are, and still no client has two entries.
pub serve_client-Serves :
    (k : Key) (is_quit : Bool) (cs : List Client)
    → Distinct cs
    → Serves k is_quit cs (serve_client k is_quit cs)
serve_client-Serves k is_quit cs d =
    Serves-get k is_quit cs (get_client_index k cs) (get_client_index-Gets k cs d) refl

-- The table after a history of messages, each with its client and whether it was "quit".
unfoldable pub serve_all : List (Key × Bool) → List Client → List Client
serve_all [] cs = cs
serve_all ((k, is_quit) ∷ ms) cs = serve_all ms (clients_after (serve_client k is_quit cs) cs)

abbrev pub is_served : Served → Bool
is_served too_many = false
is_served (forgotten _) = true
is_served (counted _ _) = true

-- No message of the history met a full table.
abbrev pub AllServed : List (Key × Bool) → List Client → Type 0
AllServed [] cs = Unit {0}
AllServed ((k, is_quit) ∷ ms) cs =
    (is_served (serve_client k is_quit cs) ≡ true)
    × AllServed ms (clients_after (serve_client k is_quit cs) cs)

-- The messages of `k` since its last "quit", counted from `n` on.
unfoldable pub tally : Key → List (Key × Bool) → Option ℕ → Option ℕ
tally k [] n = n
tally k ((j, is_quit) ∷ ms) n =
    tally k ms (if client_equal k j then (if is_quit then none else some (counter_of n + 1)) else n)

Serves-after :
    (k j : Key) (is_quit : Bool) (cs : List Client) (s : Served)
    → Serves j is_quit cs s
    → is_served s ≡ true
    → Distinct (clients_after s cs)
      × (lookup k (clients_after s cs) ≡ (
          if client_equal k j
          then (if is_quit then none else some (counter_of (lookup k cs) + 1))
          else lookup k cs))
unfolding clients_after
Serves-after k j is_quit cs too_many h served = cc
Serves-after k j is_quit cs (forgotten ds) h served = (h.1, ground (arith, h.2 k))
Serves-after k j is_quit cs (counted n ds) h served =
    (h.1, ground (arith, h.3 k, lookup_equal k j cs))

lookup-serve_all :
    (k : Key) (ms : List (Key × Bool)) (cs : List Client)
    → Distinct cs
    → AllServed ms cs
    → lookup k (serve_all ms cs) ≡ tally k ms (lookup k cs)
unfolding serve_all tally
lookup-serve_all k [] cs d h = refl
lookup-serve_all k ((j, is_quit) ∷ ms) cs d h =
    let (d', e) =
      Serves-after k j is_quit cs (serve_client j is_quit cs) (serve_client-Serves j is_quit cs d)
        h.0 in
    lookup-serve_all k ms (clients_after (serve_client j is_quit cs) cs) d' h.1 ∙ ap (tally k ms) e

pub replicate-Distinct : (n : ℕ) → Distinct (replicate n unused)
replicate-Distinct zero = tt
replicate-Distinct (suc n) = ((λ e. cc), replicate-Distinct n)

-- From the empty table on, over any history in which no message met a full table, the counter of each
-- client is the number of its messages since its last "quit" (none after "quit", or without messages).
pub serve_all-tally :
    (k : Key) (ms : List (Key × Bool))
    → AllServed ms no_clients
    → lookup k (serve_all ms no_clients) ≡ tally k ms none
unfolding lookup
serve_all-tally k ms h = lookup-serve_all k ms no_clients (replicate-Distinct max_clients) h
