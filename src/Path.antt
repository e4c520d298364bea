-- ===== src/Path.antt =====
-- Pure string operations on paths, of proot/src/path/path.c.
pub mod Compare
pub mod Join
pub mod Normalize
