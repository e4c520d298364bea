-- ===== src/Execve.antt =====
-- Programs that are run by execve(2), of proot/src/execve.
pub mod Shebang
pub mod Expand
