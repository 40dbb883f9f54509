-- ===== src/Robot.antt =====
-- lab6: the threads of a simulated robot, with its cameras, its synchronizer and its image writer.
pub mod Buffer
pub mod Time
pub mod Threads
pub mod System
pub mod Shutdown
pub mod Priority
pub mod Level1
pub mod Level2
mod Tests
mod LevelTests
