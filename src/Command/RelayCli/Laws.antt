-- ===== src/Command/RelayCli/Laws.antt =====
-- Where the embedded relay chain node keeps its data and which chain it follows
-- (polkadot-parachains/src/command.rs and cli.rs).
use parachain.Base.{
  ℕ, ◌≡◌, refl, ◌≢◌, ◌⊎◌, inl, inr, Bool, String, Option, none, some, List, [], ◌∷◌, ◌++◌, ok,
  arith,
}
use parachain.Spec.Relay.{RelayChain, to_string}
use parachain.Spec.Genesis.{GenesisKeys, ChainSpec, shell_chain_spec, integritee_chain_spec}
use parachain.Command.RelayCli.{FilePath, Base, Extensions, new, base_path, chain_id}

-- `Extensions::try_get` on a specification.
abbrev pub extensions_of : {G : Type 0} → ChainSpec G → Extensions
extensions_of s = record { relay_chain = s.extension_relay_chain; para_id = s.extension_para_id }

longer : (p : FilePath) (name : String) → p ++ (name ∷ []) ≢ p
longer [] name e = ground arith
longer (x ∷ p) name e = ground (arith, longer p name)

module _ {Error : Type 0} (B : Base Error) where
  -- Where the relay chain arguments name no base path and the parachain has one, the relay chain
  -- node keeps its data in the folder `polkadot` below it, which is another path; a base path among
  -- the relay chain arguments is used as it is.
  pub base_path-new :
      (extension : Option Extensions) (para : FilePath) (own : Option FilePath)
      → B.base_path ≡ ok own
      → ((own ≡ none)
          × (base_path (new extension (some para) B) ≡ ok (some (para ++ ("polkadot" ∷ []))))
          × (para ++ ("polkadot" ∷ []) ≢ para))
        ⊎ ((q : FilePath) × (own ≡ some q)
            × (base_path (new extension (some para) B) ≡ ok (some q)))
  unfolding base_path new mathlib.Core.Option.or_else
  base_path-new extension para none h = inl (refl, rw h refl, longer para "polkadot")
  base_path-new extension para (some q) h = inr (q, refl, rw h refl)

  -- Where the relay chain arguments choose no chain, the relay chain node of a generated
  -- specification, a shell's or a full one's, follows the relay chain that it was generated for.
  pub chain_id-new :
      (wasm : Option (List ℕ)) (id : ℕ) (keys : GenesisKeys) (relay : RelayChain)
      (para : Option FilePath) (is_dev : Bool)
      → B.chain_id is_dev ≡ ok ""
      → (chain_id (new (some (extensions_of (shell_chain_spec wasm id keys relay))) para B) is_dev
          ≡ ok (to_string relay))
        × (chain_id
              (new (some (extensions_of (integritee_chain_spec wasm id keys relay))) para B)
              is_dev
            ≡ ok (to_string relay))
  unfolding chain_id new shell_chain_spec integritee_chain_spec
  chain_id-new wasm id keys relay para is_dev h = (rw h refl, rw h refl)
