-- ===== src/Terminal.antt =====
-- kernel/terminal: the kernel's terminals.
pub mod TtyDevice
