-- ===== src/Weights.antt =====
-- The weights of the full runtime's calls (polkadot-parachains/integritee-runtime/src/weights),
-- one module per file.
pub mod Interface
pub mod Storage
pub mod System
pub mod Balances
pub mod Bounties
pub mod ChildBounties
pub mod Claims
pub mod Collective
pub mod Democracy
pub mod EnclaveBridge
pub mod Multisig
pub mod Preimage
pub mod Proxy
pub mod Scheduler
pub mod Sidechain
pub mod Teeracle
pub mod Teerex
pub mod Timestamp
pub mod Treasury
pub mod Utility
pub mod Vesting
pub mod Xcm
pub mod Functions
pub mod Accesses
