-- ===== src/Threads.antt =====
-- threads.c: thread priorities and processor affinities.
pub mod Affinity
pub mod Priority
pub mod Commands
mod Tests
