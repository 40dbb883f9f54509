-- ===== src/Forks.antt =====
-- lab1: processes that create processes, and a file that they share under a lock.
pub mod Strtol
mod Counter
mod Spawn
mod Locked
mod Tests
