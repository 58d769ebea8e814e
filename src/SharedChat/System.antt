-- ===== src/SharedChat/System.antt =====
-- 14_shared_memory/chat: the server and a client that reads, in any order of messages and reads.
use eltex_homeworks.Prelude.{◌≡◌, List, [], length}
use eltex_homeworks.SharedChat.Data.{users_max, Message}
use eltex_homeworks.SharedChat.Server.{User, ChatServer, boot, handle}
use eltex_homeworks.SharedChat.Client.{ChatClient, start_client, poll}
use eltex_homeworks.SharedChat.Spec.{Chat, hear}

-- The server, the chat that it is to show, and the client.
pub record System : Type 0 where
  pub server : ChatServer
  pub chat : Chat
  pub client : ChatClient

-- The server handles a message, or the client makes a round of its loop.
pub data Step (s : System) : System → Type 0 where
  tell :
      (msg : Message) → Step s (record s { server = handle msg s.server; chat = hear msg s.chat })
  read : Step s (record s { client = poll s.server.shared s.client })

-- The client starts with the server.
pub data Reach : System → Type 0 where
  started :
      (junk : List User)
      → length junk ≡ users_max
      → Reach (record {
        server = boot junk;
        chat = record { members = []; events = [] };
        client = start_client;
      })
  next : {s t : System} → Reach s → Step s t → Reach t
