-- ===== src/Extension.antt =====
-- The extensions of proot/src/extension.
pub mod ResourceLimit
pub mod SysvIpc
pub mod Registry
pub mod NetPolicy
