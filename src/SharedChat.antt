-- ===== src/SharedChat.antt =====
-- 14_shared_memory/chat: a chat server that keeps the history and the users in shared memory, and its
-- client. Data: chat.h; Server and Client: the programs; Spec: the chat that they are to show, which
-- History and Refinement prove that the server shows; System: the server and a reading client together;
-- Reading: what the client reads.
pub mod Data
pub mod Server
pub mod Client
pub mod Spec
pub mod History
pub mod Refinement
pub mod System
pub mod Reading
mod Examples
