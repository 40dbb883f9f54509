-- ===== src/Http.antt =====
-- lab7: the HTTP counter server and its client.
pub mod Decimal
mod Server
mod Client
mod Reply
mod Descriptors
mod Counter
mod Tests
