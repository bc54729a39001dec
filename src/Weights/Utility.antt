-- ===== src/Weights/Utility.antt =====
-- The weight functions of `pallet_utility`
-- (polkadot-parachains/integritee-runtime/src/weights/pallet_utility.rs).
pub mod Laws
pub mod Storage
use parachain.Base.{ℕ}
use parachain.Weights.Interface.{Weights}

module _ (W : Weights) where
  open W use {Weight, from_parts, saturating_add, saturating_mul}

  infixl 65 ◌⊕◌
  abbrev ◌⊕◌ : Weight → Weight → Weight
  a ⊕ b = saturating_add a b

  unfoldable pub batch : ℕ → Weight
  batch c = from_parts 85_352_237 0 ⊕ from_parts 0 0 ⊕ saturating_mul (from_parts 5_224_246 0) c

  unfoldable pub as_derivative : Weight
  as_derivative = from_parts 5_378_000 0 ⊕ from_parts 0 0

  unfoldable pub batch_all : ℕ → Weight
  batch_all c = from_parts 12_491_487 0 ⊕ from_parts 0 0 ⊕ saturating_mul (from_parts 5_703_988 0) c

  unfoldable pub dispatch_as : Weight
  dispatch_as = from_parts 9_383_000 0 ⊕ from_parts 0 0

  unfoldable pub force_batch : ℕ → Weight
  force_batch c =
      from_parts 6_822_000 0 ⊕ from_parts 0 0 ⊕ saturating_mul (from_parts 5_525_340 0) c
