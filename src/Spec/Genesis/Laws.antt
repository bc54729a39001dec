-- ===== src/Spec/Genesis/Laws.antt =====
-- What a generated genesis holds.
use parachain.Base.{ℕ, ◌≡◌, refl, sym, ◌∙◌, ◌≢◌, Option, none, some, List, [], ◌∷◌}
use mathlib.Core.Option.{some-injective}
use parachain.Spec.Relay.{RelayChain}
use parachain.Spec.Genesis.{
  alice, bob, Key, keyring, ss58, GenesisKeys, key_set, shell_key_set, IntegriteeGenesis,
  ShellGenesis, integritee_genesis_config, shell_genesis_config, shell_chain_spec,
  integritee_chain_spec,
}

-- Who is to have funds at genesis, each ten TEER of twelve decimals: Alice and Bob of the keyring, or
-- the root key of the network alone.
abbrev pub funds : GenesisKeys → List (Key × ℕ)
funds GenesisKeys.well_known =
    (keyring alice, 10_000_000_000_000) ∷ (keyring bob, 10_000_000_000_000) ∷ []
funds GenesisKeys.integritee =
    (ss58 "2JcYbKMfEGidntYP1LpPWsCMxFvUbjaPyipRViat4Sn5nuqm", 10_000_000_000_000) ∷ []
funds GenesisKeys.integritee_dev =
    (ss58 "5DMCERPw2yC6LBWNKzswHKLCtuYdtmgKssLJAsPGPVp6fuMY", 10_000_000_000_000) ∷ []

-- Who is to rule: the first of those who have funds.
abbrev pub ruler : GenesisKeys → Key
ruler GenesisKeys.well_known = keyring alice
ruler GenesisKeys.integritee = ss58 "2JcYbKMfEGidntYP1LpPWsCMxFvUbjaPyipRViat4Sn5nuqm"
ruler GenesisKeys.integritee_dev = ss58 "5DMCERPw2yC6LBWNKzswHKLCtuYdtmgKssLJAsPGPVp6fuMY"

-- A full genesis that is generated for the keys and the parachain id.
pub integritee_genesis :
    (wasm : Option (List ℕ)) (id : ℕ) (keys : GenesisKeys) (relay : RelayChain)
    {g : IntegriteeGenesis}
    → (integritee_chain_spec wasm id keys relay).genesis ≡ some g
    → (g.balances ≡ funds keys)
      × (g.council_members ≡ ruler keys ∷ [])
      × (g.technical_committee_members ≡ ruler keys ∷ [])
      × (g.aura_authorities ≢ [])
      × (g.parachain_id ≡ (integritee_chain_spec wasm id keys relay).extension_para_id)
unfolding integritee_chain_spec integritee_genesis_config key_set
integritee_genesis none id keys relay h = cc
integritee_genesis (some wasm) id GenesisKeys.integritee relay h =
    rw (sym (some-injective _ _ h)) (refl, refl, refl, λ e. cc, refl)
integritee_genesis (some wasm) id GenesisKeys.well_known relay h =
    rw (sym (some-injective _ _ h)) (refl, refl, refl, λ e. cc, refl)
integritee_genesis (some wasm) id GenesisKeys.integritee_dev relay h =
    rw (sym (some-injective _ _ h)) (refl, refl, refl, λ e. cc, refl)

-- A shell genesis that is generated for them.
pub shell_genesis :
    (wasm : Option (List ℕ)) (id : ℕ) (keys : GenesisKeys) (relay : RelayChain) {g : ShellGenesis}
    → (shell_chain_spec wasm id keys relay).genesis ≡ some g
    → (g.balances ≡ funds keys)
      × (g.sudo_key ≡ some (ruler keys))
      × (g.aura_authorities ≡ (key_set keys).authorities)
      × (g.parachain_id ≡ (shell_chain_spec wasm id keys relay).extension_para_id)
unfolding shell_chain_spec shell_genesis_config shell_key_set key_set
shell_genesis none id keys relay h = cc
shell_genesis (some wasm) id GenesisKeys.integritee relay h =
    rw (sym (some-injective _ _ h)) (refl, refl, refl, refl)
shell_genesis (some wasm) id GenesisKeys.well_known relay h =
    rw (sym (some-injective _ _ h)) (refl, refl, refl, refl)
shell_genesis (some wasm) id GenesisKeys.integritee_dev relay h =
    rw (sym (some-injective _ _ h)) (refl, refl, refl, refl)

authorities_lem :
    (wasm : Option (List ℕ)) (id : ℕ) (keys : GenesisKeys) (relay : RelayChain)
    {g : IntegriteeGenesis}
    → (integritee_chain_spec wasm id keys relay).genesis ≡ some g
    → g.aura_authorities ≡ (key_set keys).authorities
unfolding integritee_chain_spec integritee_genesis_config
authorities_lem none id keys relay h = cc
authorities_lem (some wasm) id keys relay h = rw (sym (some-injective _ _ h)) refl

-- Of the two geneses that are generated for the same keys and id, the full one and the shell's: both
-- give ten TEER to Alice and to Bob of the keyring, or to the root key of the network, and to nobody
-- else; the root key, Alice for the keyring, is the one member of the council and of the technical
-- committee, and the one sudo key of the shell; there is at least one authority; the parachain id of
-- each is that of its spec's extension; and an upgrade finds balances, authorities and the parachain
-- id as the full genesis has them.
pub generated_genesis :
    (wasm : Option (List ℕ)) (id : ℕ) (keys : GenesisKeys) (relay : RelayChain)
    {g : IntegriteeGenesis} {before : ShellGenesis}
    → (integritee_chain_spec wasm id keys relay).genesis ≡ some g
    → (shell_chain_spec wasm id keys relay).genesis ≡ some before
    → (g.balances ≡ funds keys)
      × (g.council_members ≡ ruler keys ∷ [])
      × (g.technical_committee_members ≡ ruler keys ∷ [])
      × (before.sudo_key ≡ some (ruler keys))
      × (g.aura_authorities ≢ [])
      × (g.parachain_id ≡ (integritee_chain_spec wasm id keys relay).extension_para_id)
      × (before.parachain_id ≡ (shell_chain_spec wasm id keys relay).extension_para_id)
      × (before.balances ≡ g.balances)
      × (before.aura_authorities ≡ g.aura_authorities)
      × (before.parachain_id ≡ g.parachain_id)
unfolding integritee_chain_spec shell_chain_spec
generated_genesis wasm id keys relay full shell =
    let (given, council, committee, exist, para) = integritee_genesis wasm id keys relay full in
    let (given', sudo, authorities, para') = shell_genesis wasm id keys relay shell in
    (
      given,
      council,
      committee,
      sudo,
      exist,
      para,
      para',
      given' ∙ sym given,
      authorities ∙ sym (authorities_lem wasm id keys relay full),
      para' ∙ sym para,
    )
