-- ===== src/Weights/Sidechain.antt =====
-- The weight functions of `pallet_sidechain`
-- (polkadot-parachains/integritee-runtime/src/weights/pallet_sidechain.rs).
pub mod Laws
pub mod Storage
use parachain.Base.{ℕ}
use parachain.Weights.Interface.{Weights}

module _ (W : Weights) where
  open W use {Weight, from_parts, saturating_add, reads, writes}

  infixl 65 ◌⊕◌
  abbrev ◌⊕◌ : Weight → Weight → Weight
  a ⊕ b = saturating_add a b

  unfoldable pub confirm_imported_sidechain_block : Weight
  confirm_imported_sidechain_block =
      from_parts 43_161_000 0 ⊕ from_parts 0 3877 ⊕ reads 4 ⊕ writes 3
