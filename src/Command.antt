-- ===== src/Command.antt =====
-- The command line (polkadot-parachains/src/command.rs and cli.rs).
pub mod RelayCli
pub mod RelayConfig
pub mod Run
pub mod Startup
