-- ===== src/Firewall.antt =====
-- The Agent Firewall: internal/domain/firewall.go, internal/infrastructure/agentfw/firewall.go and
-- net.go, internal/application/firewall.go. The definitions are here and in Rules, Address and
-- Interfaces; the proofs are in the other children.
pub mod Rules
pub mod Address
pub mod Acl
pub mod Interfaces
pub mod Origins
pub mod Saving
mod Tests
