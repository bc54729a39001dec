-- ===== src/Command/RelayConfig/Laws.antt =====
-- When the parachain's configuration reaches the relay chain node's.
use parachain.Base.{◌≡◌, refl, Bool, false, String, Option, some, ok, str_eq}
use parachain.Command.RelayCli.{FilePath, Extensions, new, base_path, chain_id}
use parachain.Command.RelayConfig.{Answers, Configuration, relay_configuration}

module _ (A : Answers) (b : Configuration A) where
  -- Where the relay chain arguments name a base path and a chain, the relay chain node is configured
  -- by them alone: neither the parachain's specification nor its base path has an influence.
  pub relay_configuration_own :
      (extension : Option Extensions) (para_base_path : Option FilePath) {own : FilePath}
      → b.base.base_path ≡ ok (some own)
      → ((is_dev : Bool)
          → (name : String) × (b.base.chain_id is_dev ≡ ok name) × (str_eq name "" ≡ false))
      → relay_configuration A b extension para_base_path ≡ b
  unfolding relay_configuration base_path chain_id new mathlib.Core.Option.or_else
  relay_configuration_own extension para_base_path {own} path chain =
      let same_path : base_path (new extension para_base_path b.base) ≡ b.base.base_path =
        rw path refl in
      let same_chain : (is_dev : Bool)
          → chain_id (new extension para_base_path b.base) is_dev ≡ b.base.chain_id is_dev =
        λ is_dev. let (name, given, named) = chain is_dev in rw (given, named) refl in
      λ i. record b {
        base = record { base_path = same_path i; chain_id = λ is_dev. same_chain is_dev i };
      }
