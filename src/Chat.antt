-- ===== src/Chat.antt =====
-- lab4: the chat server and its clients, over message queues.
mod Server
mod Clients
mod Client
mod Handshake
pub mod Queues
mod Tests
mod QueueTests
