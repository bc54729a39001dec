-- ===== src/Spec/Genesis.antt =====
-- Genesis keys, genesis configurations and generated specifications of
-- polkadot-parachains/src/chain_spec.rs. The keyring and the decoding of an SS58 text are outside
-- the repository: a key is named by its keyring entry or by its text. `WASM_BINARY` comes from the
-- build and is a parameter, `none` where it was not built.
pub mod Laws
use parachain.Base.{ℕ, Bool, true, String, ◌<>◌, Option, none, some, List, [], ◌∷◌, map}
use parachain.Spec.Relay.{RelayChain, ChainType, to_string, chain_type, protocol_id}

pub data Keyring : Type 0 where
  alice bob dave eve : Keyring

pub data Key : Type 0 where
  keyring : Keyring → Key
  ss58 : String → Key

pub data GenesisKeys : Type 0 where
  integritee well_known integritee_dev : GenesisKeys

-- Root key, endowed accounts and authorities.
pub record KeySet : Type 0 where
  pub root : Key
  pub endowed : List Key
  pub authorities : List Key

-- `WellKnownKeys`
well_known_keys : KeySet
well_known_keys = record {
  root = keyring alice;
  endowed = keyring alice ∷ keyring bob ∷ [];
  authorities = keyring dave ∷ keyring eve ∷ [];
}

-- The texts that `IntegriteeKeys::authorities` and `IntegriteeDevKeys::authorities` both list.
integritee_authorities : List Key
integritee_authorities =
    ss58 "5GZJjbPPD9u6NDgK1ApYmbyGs7EBX4HeEz2y2CD38YJxjvQH"
    ∷ ss58 "5CcSd1GZus6Jw7rP47LLqMMmtr2KeXCH6W11ZKk1LbCQ9dPY"
    ∷ ss58 "5FsECrDjBXrh5hXmN4PhQfNPbjYYwwW7edu2UQ8G5LR1JFuH"
    ∷ ss58 "5HBdSEnswkqm6eoHzzX5PCeKoC15CCy88vARrT8XMaRRuyaE"
    ∷ ss58 "5GGxVLYTXS7JZAwVzisdXbsugHSD6gtDb3AT3MVzih9jTLQT"
    ∷ []

-- `IntegriteeKeys`; the root is the one endowed account.
integritee_keys : KeySet
unfolding integritee_authorities
integritee_keys =
    let root : Key = ss58 "2JcYbKMfEGidntYP1LpPWsCMxFvUbjaPyipRViat4Sn5nuqm" in
    record { root = root; endowed = root ∷ []; authorities = integritee_authorities }

-- `IntegriteeDevKeys`
integritee_dev_keys : KeySet
unfolding integritee_authorities
integritee_dev_keys =
    let root : Key = ss58 "5DMCERPw2yC6LBWNKzswHKLCtuYdtmgKssLJAsPGPVp6fuMY" in
    record { root = root; endowed = root ∷ []; authorities = integritee_authorities }

-- The `match` of `shell_chain_spec` on the genesis keys.
unfoldable pub shell_key_set : GenesisKeys → KeySet
unfolding well_known_keys integritee_keys integritee_dev_keys
shell_key_set integritee = integritee_keys
shell_key_set integritee_dev = integritee_dev_keys
shell_key_set well_known = well_known_keys

-- The `match` of `integritee_chain_spec`.
unfoldable pub key_set : GenesisKeys → KeySet
unfolding well_known_keys integritee_keys integritee_dev_keys
key_set integritee = integritee_keys
key_set well_known = well_known_keys
key_set integritee_dev = integritee_dev_keys

-- The fields of `parachain_runtime::GenesisConfig` that are not left at their defaults.
pub record IntegriteeGenesis : Type 0 where
  pub code : List ℕ
  pub balances : List (Key × ℕ)
  pub council_members : List Key
  pub technical_committee_members : List Key
  pub parachain_id : ℕ
  pub aura_authorities : List Key
  pub allow_sgx_debug_mode : Bool
  pub allow_skipping_attestation : Bool

-- The same of `shell_runtime::GenesisConfig`.
pub record ShellGenesis : Type 0 where
  pub code : List ℕ
  pub balances : List (Key × ℕ)
  pub sudo_key : Option Key
  pub parachain_id : ℕ
  pub aura_authorities : List Key

abbrev pub endowment : ℕ
endowment = 10_000_000_000_000

-- `none` is the panic of `expect`.
unfoldable pub integritee_genesis_config :
    Option (List ℕ) → Key → List Key → List Key → ℕ → Option IntegriteeGenesis
integritee_genesis_config none root_key endowed_accounts initial_authorities id = none
integritee_genesis_config (some wasm) root_key endowed_accounts initial_authorities id =
    some (record {
      code = wasm;
      balances = map (λ k. (k, endowment)) endowed_accounts;
      council_members = root_key ∷ [];
      technical_committee_members = root_key ∷ [];
      parachain_id = id;
      aura_authorities = initial_authorities;
      allow_sgx_debug_mode = true;
      allow_skipping_attestation = true;
    })

unfoldable pub shell_genesis_config :
    Option (List ℕ) → Key → List Key → List Key → ℕ → Option ShellGenesis
shell_genesis_config none root_key endowed_accounts initial_authorities parachain_id = none
shell_genesis_config (some wasm) root_key endowed_accounts initial_authorities parachain_id =
    some (record {
      code = wasm;
      balances = map (λ k. (k, endowment)) endowed_accounts;
      sudo_key = some root_key;
      parachain_id = parachain_id;
      aura_authorities = initial_authorities;
    })

-- `GenericChainSpec<G, Extensions>`: what the node sets or reads. The genesis is built when it is
-- asked for. A spec that was read from JSON has what the file says.
pub record ChainSpec (G : Type 0) : Type 0 where
  pub name : String
  pub id : String
  pub spec_type : ChainType
  pub protocol : Option String
  pub ss58_format : ℕ
  pub token_decimals : ℕ
  pub token_symbol : String
  pub extension_relay_chain : String
  pub extension_para_id : ℕ
  pub genesis : Option G

chain_spec : {G : Type 0} → String → Option G → ℕ → RelayChain → ChainSpec G
chain_spec chain_name genesis para_id relay_chain = record {
  name = chain_name;
  id = "integritee-" <> to_string relay_chain;
  spec_type = chain_type relay_chain;
  protocol = some (protocol_id relay_chain);
  ss58_format = 13;
  token_decimals = 12;
  token_symbol = "TEER";
  extension_relay_chain = to_string relay_chain;
  extension_para_id = para_id;
  genesis = genesis;
}

module _ (wasm : Option (List ℕ)) where
  unfoldable pub shell_chain_spec : ℕ → GenesisKeys → RelayChain → ChainSpec ShellGenesis
  unfolding chain_spec
  shell_chain_spec id genesis_keys relay_chain =
      let k : KeySet = shell_key_set genesis_keys in
      chain_spec "Integritee Shell" (shell_genesis_config wasm k.root k.endowed k.authorities id) id
        relay_chain

  unfoldable pub integritee_chain_spec : ℕ → GenesisKeys → RelayChain → ChainSpec IntegriteeGenesis
  unfolding chain_spec
  integritee_chain_spec id genesis_keys relay_chain =
      let k : KeySet = key_set genesis_keys in
      chain_spec "Integritee Network"
        (integritee_genesis_config wasm k.root k.endowed k.authorities id) id relay_chain
