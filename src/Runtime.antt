-- ===== src/Runtime.antt =====
-- The two runtimes (polkadot-parachains/integritee-runtime/src/lib.rs and
-- polkadot-parachains/shell-runtime/src/lib.rs).
pub mod Pallets
pub mod Proxy
pub mod Shell
pub mod Periods
pub mod Governance
pub mod Currency
pub mod Fees
pub mod BlockWeights
pub mod Inherents
pub mod Deposits
pub mod Parameters
pub mod Upgrade
pub mod Apis
