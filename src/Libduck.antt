-- ===== src/Libduck.antt =====
-- libraries/libduck: the system's base library.
pub mod AtomicCircularQueue
pub mod FilePath
