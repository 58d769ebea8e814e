-- ===== src/MqueueChat/Inbox.antt =====
-- 13_mqueue/chat/server.c: what every user of the chat has got.
use eltex_homeworks.Prelude.{
  ℕ, suc, ◌+◌, ◌≤◌, ◌<◌, ◌≡◌, refl, sym, ap, ◌∙◌, false, inl, inr, Option, none, some, List, [],
  ◌∷◌, ◌++◌, arith, leb, length, take, set, Bool-cases, length-set, length-append, append-nil,
}
use eltex_homeworks.Prelude.Int.{ℤ}
use eltex_homeworks.Prelude.Slots.{take-set}
use eltex_homeworks.Libc.Text.{Text}
use eltex_homeworks.MqueueChat.Wire.{Request}
use eltex_homeworks.MqueueChat.Server.{User, history_size, handle}
use eltex_homeworks.MqueueChat.Delivery.{places, event}
use eltex_homeworks.MqueueChat.Room.{
  Room, present, members, listed, request, boot, IsAllowed, Reach, started, next,
}
use eltex_homeworks.MqueueChat.Keeping.{Keeps, written, handle-Keeps}
use eltex_homeworks.MqueueChat.Queues.{Home}
use eltex_homeworks.MqueueChat.Boxes.{Linked, Boxed}
use eltex_homeworks.MqueueChat.Linking.{Links, handle-Links}

-- While the history has room for everything.
record Shown (room : Room) : Type 0 where
  all_kept : room.server.history_count ≡ length room.events
  history_is : take room.server.history_count room.server.history ≡ room.events
  boxed : Boxed (present room.server) room.inbox room.events

pub record Chat (room : Room) : Type 0 where
  pub size : length room.server.users ≡ 10
  depth : length room.server.history ≡ history_size
  pub count : room.server.active_users ≤ 10
  linked : Linked (present room.server) room.opened room.inbox
  shown : length room.events ≤ history_size → Shown room

-- One more event in a history with room for it.
written-more :
    (o : Option Text) (h events : List Text) (n : ℕ)
    → length h ≡ history_size
    → n ≡ length events
    → take n h ≡ events
    → length (events ++ listed o) ≤ history_size
    → ((written o h n).1 ≡ length (events ++ listed o))
      × (take (written o h n).1 (written o h n).0 ≡ events ++ listed o)
unfolding written
written-more none h events n size count is fits =
    (count ∙ ap length (sym (append-nil events)), is ∙ sym (append-nil events))
written-more (some e) h events n size count is fits =
    let longer : length (events ++ e ∷ []) ≡ length events + 1 = length-append events (e ∷ []) in
    let room : leb history_size n ≡ false = ground arith in
    rw room (
      omega arith,
      ap (λ k. take k (set h n e)) (let one : n + 1 ≡ suc n = omega arith in one)
          ∙ take-set n h e (omega arith)
          ∙ ap (λ l. l ++ e ∷ []) is,
    )

length-written : (o : Option Text) (h : List Text) (n : ℕ) → length (written o h n).0 ≡ length h
unfolding written
length-written none h n = refl
length-written (some e) h n = elim (Bool-cases (leb history_size n)) [
  | inl full ↦ rw full refl
  | inr room ↦ rw room (length-set h n e)
]

boot-Chat :
    (users : List User) (history : List Text)
    → length users ≡ 10
    → length history ≡ history_size
    → Chat (boot users history)
unfolding boot members Home
boot-Chat users history size depth = record {
  size = size;
  depth = depth;
  count = omega arith;
  linked = record { home = tt; apart = λ p. omega arith; empty = λ p e. refl };
  shown = λ _. record { all_kept = refl; history_is = refl; boxed = record { full = λ p e. refl } };
}

module _ (mq : ℤ) (r : Request) (room : Room) (before : Chat room)
    (fresh : places mq room.server.users room.server.active_users ≡ 0)
    (allowed : IsAllowed r room.server) where
  kept : Keeps r room.server (handle mq r room.server).1
  kept = handle-Keeps mq room.server before.size before.count r

  after :
      Links mq r room.server room.opened room.inbox
        (handle mq r room.server).0
        (handle mq r room.server).1
  after =
      handle-Links mq room.server room.opened room.inbox before.linked r before.size before.count
        fresh allowed

  request-Shown :
      length (room.events ++ listed (event r room.server)) ≤ history_size
      → Shown (request mq r room)
  unfolding request
  request-Shown fits =
      let shown =
        before.shown (omega (arith, length-append room.events (listed (event r room.server)))) in
      let (counted, is) =
        written-more (event r room.server) room.server.history room.events room.server.history_count
          before.depth shown.all_kept shown.history_is fits in
      let recorded = kept.recorded in
      record {
        all_kept = ap (λ p. p.1) recorded ∙ counted;
        history_is = ap (λ p. take p.1 p.0) recorded ∙ is;
        boxed = after.boxed room.events shown.history_is shown.boxed;
      }

  request-Chat : Chat (request mq r room)
  unfolding request
  request-Chat = record {
    size = kept.size ∙ before.size;
    depth =
        ap (λ p. length p.0) kept.recorded
        ∙ length-written (event r room.server) room.server.history room.server.history_count
        ∙ before.depth;
    count = kept.count;
    linked = after.linked;
    shown = request-Shown;
  }

pub Reach-Chat : (room : Room) → Reach room → Chat room
Reach-Chat _ (started users history size depth) = boot-Chat users history size depth
Reach-Chat _ (next {room} mq r so_far fresh allowed) =
    request-Chat mq r room (Reach-Chat room so_far) fresh allowed

-- Any requests, where a process joins only while it is not in the chat, mq_open gives a descriptor that no
-- user of the chat has, and no queue with a user's name is there at the start: while at most 100 events
-- were made known (users that joined, texts, users that left), the pid of every user of the chat belongs
-- to no other one, and the queue with the name of this pid has got exactly these events, in order, since
-- it was made, also the ones from before the user joined.
pub Reach-inbox :
    (room : Room)
    → Reach room
    → length room.events ≤ history_size
    → (pid : ℤ) → 0 < members pid (present room.server)
    → (members pid (present room.server) ≡ 1) × (room.inbox pid ≡ room.events)
Reach-inbox room reached few pid some_user =
    let chat = Reach-Chat room reached in
    let alone = chat.linked.apart pid in
    let one : members pid (present room.server) ≡ 1 = omega arith in
    (one, (chat.shown few).boxed.full pid one)
