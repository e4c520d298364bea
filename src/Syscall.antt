-- ===== src/Syscall.antt =====
-- The system call layer of proot/src/syscall.
pub mod Sysnum
pub mod Chain
pub mod Brk
pub mod Seccomp
