-- ===== src/Flux/Loop.antt =====
-- `flux_do` of src/flux.c, one round of the main loop. What the environment answers in a round is
-- a `Round`: clock readings are microseconds, as `gettimeofday` gives them.
pub mod Throttle
pub mod Handle
pub mod Invariant
pub mod Writes
pub mod Keeps
pub mod Round
pub mod Progress
