-- ===== src/Spec/Relay/Laws.antt =====
-- The names, spec ids and protocol ids of relay chains (polkadot-parachains/src/chain_spec.rs).
use mathlib.Core.Option.{some-injective}
use parachain.Base.{
  ◌≡◌, refl, String, ◌<>◌, Option, none, some, List, [], ◌∷◌, str_eq, if◌then◌else◌, ap, sym, ◌∙◌,
  ◌⊎◌, inl, inr,
}
use parachain.Spec.Relay.{
  RelayChain, rococo_local, westend_local, kusama_local, polkadot_local, rococo, westend, kusama,
  polkadot, moonbase, to_string, protocol_id,
}

abbrev relay_chains : List RelayChain
relay_chains =
    rococo_local ∷ westend_local ∷ kusama_local ∷ polkadot_local ∷ rococo ∷ westend ∷ kusama
    ∷ polkadot ∷ moonbase ∷ []

-- The first relay chain with a text.
find_text : (RelayChain → String) → List RelayChain → String → Option RelayChain
find_text name [] t = none
find_text name (r ∷ rs) t = if str_eq (name r) t then some r else find_text name rs t

spec_id : RelayChain → String
unfolding to_string
spec_id r = "integritee-" <> to_string r

find_spec_id : (r : RelayChain) → find_text spec_id relay_chains (spec_id r) ≡ some r
unfolding find_text spec_id
find_spec_id rococo_local = refl
find_spec_id _ = refl

find_protocol_id : (r : RelayChain) → find_text protocol_id relay_chains (protocol_id r) ≡ some r
unfolding find_text protocol_id
find_protocol_id rococo_local = refl
find_protocol_id _ = refl

spec_id_injective : (r s : RelayChain) → spec_id r ≡ spec_id s → r ≡ s
spec_id_injective r s h =
    some-injective _ _
      (sym (find_spec_id r) ∙ ap (find_text spec_id relay_chains) h ∙ find_spec_id s)

-- Two relay chains with the same name, with the same spec id or with the same protocol id are one.
pub relay_chain_injective :
    (r s : RelayChain)
    → (to_string r ≡ to_string s)
      ⊎ (("integritee-" <> to_string r) ≡ ("integritee-" <> to_string s))
      ⊎ (protocol_id r ≡ protocol_id s)
    → r ≡ s
unfolding spec_id
relay_chain_injective r s (inl h) = spec_id_injective r s (ap (λ t. "integritee-" <> t) h)
relay_chain_injective r s (inr (inl h)) = spec_id_injective r s h
relay_chain_injective r s (inr (inr h)) =
    some-injective _ _
      (sym (find_protocol_id r) ∙ ap (find_text protocol_id relay_chains) h ∙ find_protocol_id s)
