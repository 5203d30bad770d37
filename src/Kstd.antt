-- ===== src/Kstd.antt =====
-- kernel/kstd: the containers of the kernel's own standard library.
pub mod Ring
pub mod CircularQueue
pub mod Queue
