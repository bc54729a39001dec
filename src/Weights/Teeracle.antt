-- ===== src/Weights/Teeracle.antt =====
-- The weight functions of `pallet_teeracle`
-- (polkadot-parachains/integritee-runtime/src/weights/pallet_teeracle.rs).
pub mod Laws
pub mod Storage
use parachain.Base.{ℕ}
use parachain.Weights.Interface.{Weights}

module _ (W : Weights) where
  open W use {Weight, from_parts, saturating_add, reads, writes}

  infixl 65 ◌⊕◌
  abbrev ◌⊕◌ : Weight → Weight → Weight
  a ⊕ b = saturating_add a b

  unfoldable pub update_exchange_rate : Weight
  update_exchange_rate = from_parts 40_409_000 0 ⊕ from_parts 0 3956 ⊕ reads 3 ⊕ writes 1

  unfoldable pub update_oracle : Weight
  update_oracle = from_parts 30_318_000 0 ⊕ from_parts 0 3947 ⊕ reads 2 ⊕ writes 1

  unfoldable pub add_to_whitelist : Weight
  add_to_whitelist = from_parts 16_885_000 0 ⊕ from_parts 0 3507 ⊕ reads 1 ⊕ writes 1

  unfoldable pub remove_from_whitelist : Weight
  remove_from_whitelist = from_parts 20_247_000 0 ⊕ from_parts 0 3609 ⊕ reads 1 ⊕ writes 1
