-- ===== src/Extension/NetPolicy.antt =====
-- The network policy, of proot/src/extension/net_policy/net_policy.c: the rules on destinations and
-- ports, the decision on a system call, and the names in DNS packets.
pub mod Dns
pub mod Text
pub mod Rules
pub mod Match
pub mod Binds
pub mod Decision
pub mod Answer
