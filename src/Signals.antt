-- ===== src/Signals.antt =====
-- lab2: how a process treats SIGUSR1, by its mode.
pub mod Kernel
pub mod Modes
pub mod Loop
pub mod Outcomes
pub mod Child
pub mod Pair
pub mod Pause
mod Tests
mod PauseTests
