-- ===== src/Xcm.antt =====
-- The XCM configuration (polkadot-parachains/common/src/xcm_config.rs and the two runtimes'
-- src/xcm_config.rs).
pub mod Location
pub mod Currency
pub mod Reserve
pub mod Barrier
pub mod RuntimeBarrier
pub mod Executor
pub mod Origins
pub mod Pallet
pub mod Weigher
pub mod Tokens
pub mod Accounts
pub mod Shell
