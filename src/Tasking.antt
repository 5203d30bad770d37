-- ===== src/Tasking.antt =====
-- kernel/tasking: threads and what they wait for.
pub mod Mutex
