-- ===== src/Spec/Load/Table.antt =====
-- The table of known specification ids: the constants and the literal arms of `load_spec` in
-- polkadot-parachains/src/command.rs, with the files that polkadot-parachains/src/chain_spec.rs
-- builds in.
use parachain.Base.{ℕ, String, Option, none, some, List, [], ◌∷◌, str_eq, if◌then◌else◌}
use parachain.Spec.Relay.{
  RelayChain, rococo_local, westend_local, kusama_local, polkadot_local, rococo, westend, kusama,
  polkadot, moonbase,
}
use parachain.Spec.Genesis.{GenesisKeys, integritee, well_known, integritee_dev}

abbrev pub local_para_id : ℕ
local_para_id = 2015

abbrev pub rococo_para_id : ℕ
rococo_para_id = 2015

abbrev pub westend_para_id : ℕ
westend_para_id = 2081

abbrev pub kusama_para_id : ℕ
kusama_para_id = 2015

abbrev pub kusama_swap_para_id : ℕ
kusama_swap_para_id = 2267

abbrev pub polkadot_para_id : ℕ
polkadot_para_id = 2039

abbrev pub moonbase_para_id : ℕ
moonbase_para_id = 2015

-- Where a known specification comes from: a file that is built in, read at one of the two types, or
-- a generated specification with its parachain id, keys and relay chain.
pub data Source : Type 0 where
  built_in_shell : String → Source
  built_in_integritee : String → Source
  fresh_shell : ℕ → GenesisKeys → RelayChain → Source
  fresh_integritee : ℕ → GenesisKeys → RelayChain → Source

shell_rococo_config : Source
shell_rococo_config = built_in_shell "integritee-rococo.json"

shell_westend_config : Source
shell_westend_config = built_in_shell "integritee-westend.json"

shell_kusama_config : Source
shell_kusama_config = built_in_shell "integritee-kusama.json"

shell_kusama_lease2_config : Source
shell_kusama_lease2_config = built_in_shell "shell-kusama-lease2.json"

shell_kusama_lease3_config : Source
shell_kusama_lease3_config = built_in_shell "shell-kusama-lease3.json"

shell_polkadot_config : Source
shell_polkadot_config = built_in_shell "integritee-polkadot.json"

integritee_moonbase_config : Source
integritee_moonbase_config = built_in_integritee "integritee-moonbase.json"

-- The arms of the `match`, in their order.
unfoldable pub known_specs : List (String × Source)
unfolding shell_rococo_config shell_westend_config shell_kusama_config shell_kusama_lease2_config
    shell_kusama_lease3_config shell_polkadot_config integritee_moonbase_config
known_specs =
    ("integritee-rococo", shell_rococo_config)
    ∷ ("integritee-westend", shell_westend_config)
    ∷ ("integritee-kusama", shell_kusama_config)
    ∷ ("integritee-polkadot", shell_polkadot_config)
    ∷ ("integritee-moonbase", integritee_moonbase_config)
    ∷ ("shell-kusama-lease2", shell_kusama_lease2_config)
    ∷ ("shell-kusama-lease3", shell_kusama_lease3_config)
    ∷ ("integritee-rococo-fresh", fresh_shell rococo_para_id integritee rococo)
    ∷ ("integritee-westend-fresh", fresh_shell westend_para_id integritee westend)
    ∷ ("integritee-kusama-fresh", fresh_shell kusama_para_id integritee kusama)
    ∷ ("integritee-polkadot-fresh", fresh_shell polkadot_para_id integritee polkadot)
    ∷ ("integritee-moonbase-fresh", fresh_integritee moonbase_para_id integritee_dev moonbase)
    ∷ ("shell-kusama-fresh", fresh_shell kusama_swap_para_id integritee kusama)
    ∷ ("integritee-rococo-local", fresh_integritee local_para_id integritee rococo_local)
    ∷ ("integritee-rococo-local-dev", fresh_integritee local_para_id well_known rococo_local)
    ∷ ("integritee-westend-local", fresh_integritee local_para_id integritee westend_local)
    ∷ ("integritee-westend-local-dev", fresh_integritee local_para_id well_known westend_local)
    ∷ ("integritee-kusama-local", fresh_integritee local_para_id integritee kusama_local)
    ∷ ("integritee-kusama-local-dev", fresh_integritee local_para_id well_known kusama_local)
    ∷ ("integritee-polkadot-local", fresh_integritee local_para_id integritee polkadot_local)
    ∷ ("integritee-polkadot-local-dev", fresh_integritee local_para_id well_known polkadot_local)
    ∷ ("shell-rococo-local", fresh_shell kusama_swap_para_id integritee rococo_local)
    ∷ ("shell-rococo-local-dev", fresh_shell kusama_swap_para_id well_known rococo_local)
    ∷ ("shell-westend-local", fresh_shell kusama_swap_para_id integritee westend_local)
    ∷ ("shell-westend-local-dev", fresh_shell kusama_swap_para_id well_known westend_local)
    ∷ ("shell-kusama-local", fresh_shell kusama_swap_para_id integritee kusama_local)
    ∷ ("shell-kusama-local-dev", fresh_shell kusama_swap_para_id well_known kusama_local)
    ∷ ("shell-polkadot-local", fresh_shell kusama_swap_para_id integritee polkadot_local)
    ∷ ("shell-polkadot-local-dev", fresh_shell kusama_swap_para_id well_known polkadot_local)
    ∷ []

-- A `match` on text literals takes the first that is equal.
unfoldable pub lookup_id : String → List (String × Source) → Option Source
lookup_id id [] = none
lookup_id id ((known, source) ∷ specs) = if str_eq id known then some source else lookup_id id specs
