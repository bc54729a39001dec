-- ===== src/Spec/Relay.antt =====
-- `RelayChain` of polkadot-parachains/src/chain_spec.rs.
pub mod Laws
use parachain.Base.{String}

pub data RelayChain : Type 0 where
  rococo_local westend_local kusama_local polkadot_local : RelayChain
  rococo westend kusama polkadot moonbase : RelayChain

-- `sc_service::ChainType`, as far as it is used.
pub data ChainType : Type 0 where
  local live : ChainType

unfoldable pub to_string : RelayChain → String
to_string rococo_local = "rococo-local"
to_string westend_local = "westend-local"
to_string kusama_local = "kusama-local"
to_string polkadot_local = "polkadot-local"
to_string rococo = "rococo"
to_string westend = "westend"
to_string kusama = "kusama"
to_string polkadot = "polkadot"
to_string moonbase = "westend_moonbase_relay_testnet"

unfoldable pub chain_type : RelayChain → ChainType
chain_type rococo_local = local
chain_type westend_local = local
chain_type kusama_local = local
chain_type polkadot_local = local
chain_type rococo = live
chain_type westend = live
chain_type kusama = live
chain_type polkadot = live
chain_type moonbase = live

unfoldable pub protocol_id : RelayChain → String
protocol_id rococo_local = "teer-rl"
protocol_id westend_local = "teer-wl"
protocol_id kusama_local = "teer-kl"
protocol_id polkadot_local = "teer-pl"
protocol_id rococo = "teer-r"
protocol_id westend = "teer-w"
protocol_id kusama = "teer-k"
protocol_id polkadot = "teer-p"
protocol_id moonbase = "teer-m"
