-- ===== src/MqueueChat/Room.antt =====
-- 13_mqueue/chat/server.c with the queues of its users. Their names are made of the pids, and a descriptor
-- leads to the queue that had the name when it was opened.
use eltex_homeworks.Prelude.{
  ℕ, suc, ◌≡◌, Bool, false, Option, none, some, List, [], ◌∷◌, ◌++◌, ltb, if◌then◌else◌, ◌&&◌,
  length, take,
}
use eltex_homeworks.Prelude.Int.{ℤ, eqb_ℤ}
use eltex_homeworks.Libc.Text.{Text}
use eltex_homeworks.MqueueChat.Wire.{Request, joining, saying, leaving, unknown}
use eltex_homeworks.MqueueChat.Server.{User, Server, Sent, history_size, find_user, handle}
use eltex_homeworks.MqueueChat.Delivery.{places, event}

-- The users of the chat, and how many of them have this pid.
abbrev pub present : Server → List User
present s = take s.active_users s.users

unfoldable pub members : ℤ → List User → ℕ
members p [] = 0
members p (u ∷ users) = let rest = members p users in if eqb_ℤ u.pid p then suc rest else rest

-- The server and everything that was made known. `opened` gives for a descriptor the pid in the name of
-- its queue, and none for one that is closed or whose queue has lost its name; `inbox` gives for a pid
-- what was put into the queue with that name since it was made, and [] where there is none.
pub record Room : Type 0 where
  pub server : Server
  pub events : List Text
  pub opened : ℤ → Option ℤ
  pub inbox : ℤ → List Text

abbrev pub listed : Option Text → List Text
listed none = []
listed (some e) = e ∷ []

-- mq_unlink, on a descriptor and on the queues
unfoldable pub forget : ℤ → Option ℤ → Option ℤ
forget pid none = none
forget pid (some p) = if eqb_ℤ pid p then none else some p

-- sprintf and mq_open with O_CREAT of a user that is let in, mq_close and mq_unlink of one that leaves.
unfoldable pub descriptors : ℤ → Request → Server → (ℤ → Option ℤ) → ℤ → Option ℤ
descriptors mq (joining name pid) s opened m =
    if ltb s.active_users 10 && eqb_ℤ mq m then some pid else opened m
descriptors mq (saying name pid text) s opened m = opened m
descriptors mq (leaving name pid) s opened m = elim (find_user s.users s.active_users pid) [
  | none ↦ opened m
  | some idx ↦ forget pid (opened m)
]
descriptors mq unknown s opened m = opened m

-- A queue that is there is opened with what lies in it.
unfoldable pub queues : Request → Server → (ℤ → List Text) → ℤ → List Text
queues (leaving name pid) s inbox p = elim (find_user s.users s.active_users pid) [
  | none ↦ inbox p
  | some idx ↦ (if eqb_ℤ pid p then [] else inbox p)
]
queues _ s inbox p = inbox p

abbrev pub leads : Option ℤ → ℤ → Bool
leads none p = false
leads (some q) p = eqb_ℤ q p

-- What is put into the queue with the name of `p`, in order.
unfoldable pub put : (ℤ → Option ℤ) → ℤ → Sent → List Text
put opened p [] = []
put opened p ((mq, t) ∷ out) =
    let rest = put opened p out in if leads (opened mq) p then t ∷ rest else rest

unfoldable pub request : ℤ → Request → Room → Room
request mq r room =
    let opened = descriptors mq r room.server room.opened in
    record {
      server = (handle mq r room.server).1;
      events = room.events ++ listed (event r room.server);
      opened = opened;
      inbox = λ p. queues r room.server room.inbox p ++ put opened p (handle mq r room.server).0;
    }

-- The arrays hold whatever they hold; there is no queue with a user's name.
unfoldable pub boot : List User → List Text → Room
boot users history = record {
  server = record { users = users; active_users = 0; history = history; history_count = 0 };
  events = [];
  opened = λ m. none;
  inbox = λ p. [];
}

-- A process joins only while it is not in the chat; anyone may send anything else.
abbrev pub IsAllowed : Request → Server → Type 0
IsAllowed (joining name pid) s = members pid (present s) ≡ 0
IsAllowed _ s = Unit {0}

-- mq_open gives a descriptor that no user of the chat has.
pub data Reach : Room → Type 0 where
  started :
      (users : List User) (history : List Text)
      → length users ≡ 10
      → length history ≡ history_size
      → Reach (boot users history)
  next :
      {room : Room} (mq : ℤ) (r : Request)
      → Reach room
      → places mq room.server.users room.server.active_users ≡ 0
      → IsAllowed r room.server
      → Reach (request mq r room)
