-- ===== src/Tasks.antt =====
-- lab5: producers, consumers and a manager that share a buffer of tasks.
pub mod Text
pub mod Store
pub mod Single
pub mod Priority
pub mod Process
pub mod System
pub mod Setup
mod Tests
mod SetupTests
mod KillTests
