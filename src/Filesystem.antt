-- ===== src/Filesystem.antt =====
-- kernel/filesystem: what stands behind file descriptors.
pub mod Pipe
