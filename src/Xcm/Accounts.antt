-- ===== src/Xcm/Accounts.antt =====
-- The places of the chain and of its accounts: `RelayNetwork`, `UniversalLocation` and
-- `AccountIdToMultiLocation` of polkadot-parachains/integritee-runtime/src/xcm_config.rs and of
-- polkadot-parachains/shell-runtime/src/xcm_config.rs. The chain's own id is a parameter.
pub mod Laws
use parachain.Base.{ℕ, List, none}
use parachain.Xcm.Location.{
  NetworkId, kusama, Junctions, x1, x2, para_chain, account_id32, global_consensus, MultiLocation,
}

abbrev pub relay_network : NetworkId
relay_network = kusama

abbrev pub shell_relay_network : NetworkId
shell_relay_network = kusama

unfoldable pub universal_location : ℕ → Junctions
universal_location self_para_id = x2 (global_consensus relay_network) (para_chain self_para_id)

unfoldable pub shell_universal_location : ℕ → Junctions
shell_universal_location self_para_id =
    x2 (global_consensus shell_relay_network) (para_chain self_para_id)

-- An account is the list of its 32 bytes.
unfoldable pub account_id_to_multi_location : List ℕ → MultiLocation
account_id_to_multi_location account = record {
  parents = 0;
  interior = x1 (account_id32 none account);
}

unfoldable pub shell_account_id_to_multi_location : List ℕ → MultiLocation
shell_account_id_to_multi_location account = record {
  parents = 0;
  interior = x1 (account_id32 none account);
}
