-- ===== src/MqueueChat.antt =====
-- 13_mqueue/chat: a chat over message queues. Wire: the lines that server and client exchange, printed
-- and parsed; Talk: what arrives of what was typed; Server: the state of the server and its requests;
-- Delivery: which messages a request sends to each user; Room: the server with the queues of its users,
-- request by request; Members, Keeping: what a request leaves of the users and the history; Queues, Boxes,
-- Linking: where the descriptors lead, and what is put into the queues; Inbox: what every user has got;
-- Client, Screen: what the client shows of a message; Names, Users: the names of the users on both sides;
-- Conversation: requests as the clients send them; Convergence: what all clients show.
pub mod Wire
pub mod Talk
pub mod Server
pub mod Delivery
pub mod Client
pub mod Room
pub mod Queues
pub mod Members
pub mod Keeping
pub mod Boxes
pub mod Linking
pub mod Inbox
pub mod Screen
pub mod Names
pub mod Users
pub mod Conversation
pub mod Convergence
mod Examples
