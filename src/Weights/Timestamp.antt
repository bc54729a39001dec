-- ===== src/Weights/Timestamp.antt =====
-- The weight functions of `pallet_timestamp`
-- (polkadot-parachains/integritee-runtime/src/weights/pallet_timestamp.rs).
pub mod Laws
pub mod Storage
use parachain.Base.{ℕ}
use parachain.Weights.Interface.{Weights}

module _ (W : Weights) where
  open W use {Weight, from_parts, saturating_add, reads, writes}

  infixl 65 ◌⊕◌
  abbrev ◌⊕◌ : Weight → Weight → Weight
  a ⊕ b = saturating_add a b

  unfoldable pub set : Weight
  set = from_parts 12_005_000 0 ⊕ from_parts 0 1493 ⊕ reads 1 ⊕ writes 1

  unfoldable pub on_finalize : Weight
  on_finalize = from_parts 7_333_000 0 ⊕ from_parts 0 0
