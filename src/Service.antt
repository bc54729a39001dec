-- ===== src/Service.antt =====
-- The node service (polkadot-parachains/src/service.rs).
pub mod Lazy
pub mod Consensus
pub mod Verifier
pub mod Queue
pub mod Node
pub mod Aura
pub mod Rpc
