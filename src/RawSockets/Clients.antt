-- ===== src/RawSockets/Clients.antt =====
-- The table of clients of 21_raw_sockets/server.c: client_equal, get_client_index and reset_client.
-- The array `clients` is a list of MAX_CLIENTS entries.
pub mod Claims
pub mod Counts
use eltex_homeworks.Prelude.{
  ℕ, zero, suc, ◌+◌, Bool, true, false, ◌&&◌, Option, none, some, List, [], ◌∷◌, ◌==◌,
  if◌then◌else◌, replicate,
}

abbrev pub max_clients : ℕ
max_clients = 10

-- client_info; an address and a port together name a client
pub record Key : Type 0 where
  pub ip : ℕ
  pub port : ℕ

pub record Client : Type 0 where
  pub key : Key
  pub counter : ℕ
  pub used : Bool

abbrev pub client_equal : Key → Key → Bool
client_equal a b = a.ip == b.ip && a.port == b.port

abbrev pub unused : Client
unused = record { key = record { ip = 0; port = 0 }; counter = 0; used = false }

abbrev pub no_clients : List Client
no_clients = replicate max_clients unused

-- the first loop of get_client_index
unfoldable pub find_client : Key → List Client → Option ℕ
find_client k [] = none
find_client k (c ∷ cs) =
    if c.used && client_equal c.key k
    then some 0
    else elim (find_client k cs) [ none ↦ none | some i ↦ some (suc i) ]

-- the second loop: the first entry that is not in use is given to `k`
unfoldable pub claim : Key → List Client → Option (ℕ × List Client)
claim k [] = none
claim k (c ∷ cs) =
    if c.used
    then elim (claim k cs) [ none ↦ none | some (i, cs') ↦ some (suc i, c ∷ cs') ]
    else some (0, record { key = k; counter = 0; used = true } ∷ cs)

-- The index, with the table after it; `none` for -1.
unfoldable pub get_client_index : Key → List Client → Option (ℕ × List Client)
get_client_index k cs = elim (find_client k cs) [ none ↦ claim k cs | some i ↦ some (i, cs) ]

-- clients[idx] changed by `f`
unfoldable pub modify : ℕ → (Client → Client) → List Client → List Client
modify i f [] = []
modify zero f (c ∷ cs) = f c ∷ cs
modify (suc i) f (c ∷ cs) = c ∷ modify i f cs

-- reset_client(idx)
unfoldable pub reset_client : ℕ → List Client → List Client
reset_client i cs = modify i (λ _. unused) cs

-- clients[idx].counter++
unfoldable pub count_message : ℕ → List Client → List Client
count_message i cs = modify i (λ c. record c { counter = c.counter + 1 }) cs

-- clients[idx].counter
unfoldable pub counter_at : ℕ → List Client → ℕ
counter_at i [] = 0
counter_at zero (c ∷ cs) = c.counter
counter_at (suc i) (c ∷ cs) = counter_at i cs

-- What main does with the table for a message of client `k`, between its filter and the reply: the
-- table is full; the message was "quit"; or it is counted, and the reply carries the counter.
pub data Served : Type 0 where
  too_many : Served
  forgotten : List Client → Served
  counted : ℕ → List Client → Served

unfoldable pub serve_client : Key → Bool → List Client → Served
serve_client k is_quit cs = elim (get_client_index k cs) [
  | none ↦ too_many
  | some (i, cs') ↦
      if is_quit
      then forgotten (reset_client i cs')
      else counted (counter_at i (count_message i cs')) (count_message i cs')
]

-- The table after it.
unfoldable pub clients_after : Served → List Client → List Client
clients_after too_many cs = cs
clients_after (forgotten cs') cs = cs'
clients_after (counted n cs') cs = cs'
