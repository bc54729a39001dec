-- ===== src/Spec.antt =====
-- Chain specifications (polkadot-parachains/src/chain_spec.rs) and how the node picks one
-- (polkadot-parachains/src/command.rs).
pub mod Relay
pub mod Genesis
pub mod Load
