-- ===== src/Pipes.antt =====
-- lab3: numerical integration, shared out to processes that answer through pipes.
mod Integrator
mod Ends
mod Slices
mod Fifo
mod Tests
