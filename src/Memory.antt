-- ===== src/Memory.antt =====
-- kernel/memory: address spaces and physical memory.
pub mod VmSpace
pub mod BuddyZone
pub mod PhysicalRegion
