-- ===== src/Libterm.antt =====
-- libraries/libterm: the terminal emulator that the kernel's virtual consoles and the terminal
-- application share.
pub mod Types
pub mod Screen
pub mod Terminal
pub mod Utf8
