-- ===== src/SharedChat/Reading.antt =====
-- 14_shared_memory/chat/client.c, receiver_thread: what the client has read of the chat.
use eltex_homeworks.Prelude.{
  ℕ, zero, suc, ◌+◌, ◌≤◌, ◌<◌, ◌≡◌, ◌⊎◌, refl, sym, ap, ap₂, subst, ◌∙◌, inl, inr, false, List, [],
  ◌∷◌, ◌++◌, arith, ◌==◌, leb, if◌then◌else◌, length, get_or, set, take, length-set, length-append,
  Bool-cases,
}
use eltex_homeworks.SharedChat.Data.{history_size, Message}
use eltex_homeworks.Prelude.Slots.{take-set}
use eltex_homeworks.SharedChat.Server.{ChatServer, zeroed}
use eltex_homeworks.SharedChat.Client.{ChatClient, start_client, read_message, poll}
use eltex_homeworks.SharedChat.Spec.{Chat, hear, Shows}
use eltex_homeworks.SharedChat.Refinement.{handle-Shows}
use eltex_homeworks.SharedChat.History.{boot-Shows}
use eltex_homeworks.SharedChat.System.{System, Step, tell, read, Reach, started, next}

hear-events :
    (msg : Message) (c : Chat)
    → ((hear msg c).events ≡ c.events) ⊎ ((hear msg c).events ≡ c.events ++ msg ∷ [])
unfolding hear
hear-events msg c = ground arith

take-take :
    (k : ℕ) (xs : List Message) (x : Message) → k ≤ length xs → take k (xs ++ x ∷ []) ≡ take k xs
take-take zero xs x h = refl
take-take (suc k) [] x h = absurd (omega arith)
take-take (suc k) (y ∷ xs) x h = ap (◌∷◌ y) (take-take k xs x (omega arith))

take-get_or :
    (k : ℕ) (xs : List Message) (d : Message)
    → k < length xs
    → take (suc k) xs ≡ take k xs ++ get_or xs k d ∷ []
take-get_or k [] d h = absurd (omega arith)
take-get_or zero (x ∷ xs) d h = refl
take-get_or (suc k) (x ∷ xs) d h = ap (◌∷◌ x) (take-get_or k xs d (omega arith))

get_or-take :
    (n k : ℕ) (xs : List Message) (d : Message) → k < n → get_or (take n xs) k d ≡ get_or xs k d
get_or-take zero k xs d h = absurd (omega arith)
get_or-take (suc n) k [] d h = refl
get_or-take (suc n) zero (x ∷ xs) d h = refl
get_or-take (suc n) (suc k) (x ∷ xs) d h = get_or-take n k xs d (omega arith)

-- The client has taken over the first events, in order.
pub record Reads (c : ChatClient) (events : List Message) : Type 0 where
  pub lines : c.chat_lines ≡ c.last_read_pos
  pub behind : c.last_read_pos ≤ length events
  pub shown : take c.chat_lines c.chat_history ≡ take c.chat_lines events
  pub slots : length c.chat_history ≡ history_size

Reads-grow :
    (c : ChatClient) (events : List Message) (msg : Message)
    → Reads c events
    → Reads c (events ++ msg ∷ [])
Reads-grow c events msg r = record {
  lines = r.lines;
  behind = omega (arith, r.behind, length-append events (msg ∷ []));
  shown = r.shown ∙ sym (take-take c.chat_lines events msg (omega (arith, r.lines, r.behind)));
  slots = r.slots;
}

module _ (s : ChatServer) (chat : Chat) (c : ChatClient) (sh : Shows s chat)
    (few : length chat.events < history_size) where
  position-length : s.shared.current_pos ≡ length chat.events
  position-length = omega (arith, sh.position, sh.counted, few)

  next_event :
      (k : ℕ)
      → k < length chat.events
      → get_or s.shared.history k zeroed ≡ get_or chat.events k zeroed
  next_event k h =
      sym (
        get_or-take s.shared.history_count k s.shared.history zeroed
          (omega (arith, sh.counted, few)))
      ∙ ap (λ l. get_or l k zeroed) sh.recorded
      ∙ get_or-take history_size k chat.events zeroed (omega (arith, few))

  read_message-Reads :
      Reads c chat.events
      → (c.last_read_pos == s.shared.current_pos) ≡ false
      → Reads (read_message s.shared c) chat.events
  unfolding read_message
  read_message-Reads r ne =
      let more : c.last_read_pos < length chat.events = ground (arith, r.behind, position-length) in
      let line : (if leb history_size (c.chat_lines + 1) then 0 else c.chat_lines + 1)
          ≡ suc c.chat_lines =
        ground (arith, r.lines, more, few) in
      record {
        lines = line ∙ omega (arith, r.lines, more, few);
        behind = omega (arith, more, few);
        shown =
            subst
              (λ n.
                take n
                  (set c.chat_history c.chat_lines (get_or s.shared.history c.last_read_pos zeroed))
                ≡ take n chat.events)
              (sym line)
              (take-set c.chat_lines c.chat_history _ (omega (arith, r.lines, r.slots, more, few))
                ∙ ap₂ (λ l x. l ++ x ∷ []) r.shown
                    (next_event c.last_read_pos more
                      ∙ ap (λ k. get_or chat.events k zeroed) (sym r.lines))
                ∙ sym (take-get_or c.chat_lines chat.events zeroed (omega (arith, r.lines, more))));
        slots = length-set c.chat_history c.chat_lines _ ∙ r.slots;
      }

  poll-Reads : Reads c chat.events → Reads (poll s.shared c) chat.events
  unfolding poll
  poll-Reads r = elim (Bool-cases (c.last_read_pos == s.shared.current_pos)) [
    | inl same ↦ rw same r
    | inr differs ↦ rw differs (read_message-Reads r differs)
  ]

pub record Invariant (s : System) : Type 0 where
  pub shows : Shows s.server s.chat
  pub reads : length s.chat.events < history_size → Reads s.client s.chat.events

Step-Invariant : {s t : System} → Step s t → Invariant s → Invariant t
Step-Invariant {s} (tell msg) inv = record {
  shows = handle-Shows msg s.server s.chat inv.shows;
  reads = λ few. elim (hear-events msg s.chat) [
    | inl same ↦ rw same (inv.reads (subst (λ l. length l < history_size) same few))
    | inr more ↦ rw more (
        Reads-grow s.client s.chat.events msg (
          inv.reads (
            omega (
              arith,
              subst (λ l. length l < history_size) more few,
              length-append s.chat.events (msg ∷ []),
            ))))
  ];
}
Step-Invariant {s} read inv = record {
  shows = inv.shows;
  reads = λ few. poll-Reads s.server s.chat s.client inv.shows few (inv.reads few);
}

Reach-Invariant : {s : System} → Reach s → Invariant s
Reach-Invariant (started junk h) = record {
  shows = boot-Shows junk h;
  reads = λ few.
      unfold start_client in
      record { lines = refl; behind = omega arith; shown = refl; slots = refl };
}
Reach-Invariant (next r step) = Step-Invariant step (Reach-Invariant r)

-- In any order of messages and reads, while the chat has fewer than 100 events: the lines of the client
-- are the first events of the chat, in order and without a gap, and when its inner loop stops (its
-- position is the server's) they are all of them.
pub Reach-reads :
    (s : System)
    → Reach s
    → length s.chat.events < history_size
    → (take s.client.chat_lines s.client.chat_history ≡ take s.client.chat_lines s.chat.events)
      × (s.client.chat_lines ≤ length s.chat.events)
      × (s.client.last_read_pos ≡ s.server.shared.current_pos
          → s.client.chat_lines ≡ length s.chat.events)
Reach-reads s r few =
    let inv = Reach-Invariant r in
    let reads = inv.reads few in
    (
      reads.shown,
      omega (arith, reads.lines, reads.behind),
      λ e. omega (arith, reads.lines, position-length s.server s.chat s.client inv.shows few, e),
    )
