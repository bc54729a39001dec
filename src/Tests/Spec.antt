-- ===== src/Tests/Spec.antt =====
-- Specifications at concrete ids, with a JSON reader that finds one file.
use parachain.Base.{
  ℕ, ◌≡◌, ◌≢◌, refl, ap, sym, ◌∙◌, map, true, String, Option, none, some, List, [], ◌∷◌, Result, ok,
  err,
}
use parachain.Spec.Relay.{kusama, polkadot, rococo_local, moonbase, live, chain_type}
use parachain.Spec.Genesis.{
  alice, bob, keyring, integritee, well_known, integritee_dev, key_set, shell_key_set,
  IntegriteeGenesis, ShellGenesis, endowment, ChainSpec, integritee_genesis_config,
  shell_genesis_config, shell_chain_spec, integritee_chain_spec,
}
use parachain.Spec.Genesis.Laws.{generated_genesis}
use parachain.Spec.Load.Table.{fresh_shell, fresh_integritee, known_specs, lookup_id}
use parachain.Spec.Load.{shell, is_shell, LoadError, message, Json, load_spec}
use parachain.Spec.Load.Laws.{
  has_shell_type, is_built_in, HaveOneName, load_spec-is_shell, live_full_runtime,
}

abbrev wasm : Option (List ℕ)
wasm = some (1 ∷ 2 ∷ [])

-- The one file is a specification of the shell for Kusama.
abbrev file_shell : ChainSpec ShellGenesis
file_shell = shell_chain_spec wasm 2267 integritee kusama

abbrev file_full : ChainSpec IntegriteeGenesis
file_full = record (integritee_chain_spec wasm 2267 integritee kusama) { name = "Integritee Shell" }

abbrev json : Json
json = record {
  shell_bytes = λ file. err (message "no such file");
  integritee_bytes = λ file. err (message "no such file");
  shell_file = λ path. ok file_shell;
  integritee_file = λ path. ok file_full;
}

abbrev shell_name : Result LoadError (ChainSpec ShellGenesis) → String
shell_name (ok s) = s.name
shell_name (err e) = ""

abbrev full_name : Result LoadError (ChainSpec IntegriteeGenesis) → String
full_name (ok s) = s.name
full_name (err e) = ""

json-HaveOneName : HaveOneName json
unfolding shell_chain_spec
json-HaveOneName path a b ha hb = ap shell_name (sym ha) ∙ ap full_name hb

unknown_path : lookup_id "./spec.json" known_specs ≡ none
unfolding lookup_id known_specs
unknown_path = refl

loaded_shell : load_spec wasm json "./spec.json" ≡ ok (shell file_shell)
unfolding load_spec lookup_id known_specs is_shell
loaded_shell = refl

load_spec-is_shell_example : is_shell (shell file_shell) ≡ has_shell_type (shell file_shell)
load_spec-is_shell_example =
    load_spec-is_shell wasm json json-HaveOneName "./spec.json" (ap is_built_in unknown_path)
      loaded_shell

known_polkadot :
    lookup_id "integritee-polkadot-fresh" known_specs ≡ some (fresh_shell 2039 integritee polkadot)
unfolding lookup_id known_specs
known_polkadot = refl

polkadot_is_live : chain_type polkadot ≡ live
unfolding chain_type
polkadot_is_live = refl

known_moonbase :
    lookup_id "integritee-moonbase-fresh" known_specs
    ≡ some (fresh_integritee 2015 integritee_dev moonbase)
unfolding lookup_id known_specs
known_moonbase = refl

moonbase_is_live : chain_type moonbase ≡ live
unfolding chain_type
moonbase_is_live = refl

live_full_runtime_example : (moonbase ≡ moonbase) × (integritee_dev ≡ integritee_dev)
live_full_runtime_example =
    live_full_runtime "integritee-moonbase-fresh" known_moonbase moonbase_is_live

abbrev full_genesis : IntegriteeGenesis
full_genesis = record {
  code = 1 ∷ 2 ∷ [];
  balances = map (λ k. (k, endowment)) (key_set well_known).endowed;
  council_members = (key_set well_known).root ∷ [];
  technical_committee_members = (key_set well_known).root ∷ [];
  parachain_id = 2015;
  aura_authorities = (key_set well_known).authorities;
  allow_sgx_debug_mode = true;
  allow_skipping_attestation = true;
}

full_genesis_built :
    (integritee_chain_spec wasm 2015 well_known rococo_local).genesis ≡ some full_genesis
unfolding integritee_chain_spec integritee_genesis_config
full_genesis_built = refl

abbrev sudo_genesis : ShellGenesis
sudo_genesis = record {
  code = 1 ∷ 2 ∷ [];
  balances = map (λ k. (k, endowment)) (shell_key_set well_known).endowed;
  sudo_key = some (shell_key_set well_known).root;
  parachain_id = 2015;
  aura_authorities = (shell_key_set well_known).authorities;
}

sudo_genesis_built :
    (shell_chain_spec wasm 2015 well_known rococo_local).genesis ≡ some sudo_genesis
unfolding shell_chain_spec shell_genesis_config
sudo_genesis_built = refl

generated_genesis_example :
    (full_genesis.balances
      ≡ (keyring alice, 10_000_000_000_000) ∷ (keyring bob, 10_000_000_000_000) ∷ [])
    × (full_genesis.council_members ≡ keyring alice ∷ [])
    × (full_genesis.technical_committee_members ≡ keyring alice ∷ [])
    × (sudo_genesis.sudo_key ≡ some (keyring alice))
    × (full_genesis.aura_authorities ≢ [])
    × (full_genesis.parachain_id
        ≡ (integritee_chain_spec wasm 2015 well_known rococo_local).extension_para_id)
    × (sudo_genesis.parachain_id
        ≡ (shell_chain_spec wasm 2015 well_known rococo_local).extension_para_id)
    × (sudo_genesis.balances ≡ full_genesis.balances)
    × (sudo_genesis.aura_authorities ≡ full_genesis.aura_authorities)
    × (sudo_genesis.parachain_id ≡ full_genesis.parachain_id)
generated_genesis_example =
    generated_genesis wasm 2015 well_known rococo_local full_genesis_built sudo_genesis_built
