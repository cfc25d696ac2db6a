-- ===== src/Examples.antt =====
-- The library at concrete inputs: tests of the definitions, and the theorems with hypotheses applied.
mod Buffers
mod Handles
mod Planes
mod Clients
mod Displays
mod Allocations
mod Sessions
mod Vsync
mod Screens
mod Sounds
mod Composition
mod Names
