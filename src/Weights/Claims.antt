-- ===== src/Weights/Claims.antt =====
-- The weight functions of `pallet_claims`
-- (polkadot-parachains/integritee-runtime/src/weights/pallet_claims.rs).
pub mod Laws
pub mod Storage
use parachain.Base.{ℕ}
use parachain.Weights.Interface.{Weights}

module _ (W : Weights) where
  open W use {Weight, from_parts, saturating_add, reads, writes}

  infixl 65 ◌⊕◌
  abbrev ◌⊕◌ : Weight → Weight → Weight
  a ⊕ b = saturating_add a b

  unfoldable pub claim : Weight
  claim = from_parts 206_046_000 0 ⊕ from_parts 0 4764 ⊕ reads 8 ⊕ writes 6

  unfoldable pub mint_claim : Weight
  mint_claim = from_parts 15_507_000 0 ⊕ from_parts 0 1630 ⊕ reads 1 ⊕ writes 4

  unfoldable pub claim_attest : Weight
  claim_attest = from_parts 204_262_000 0 ⊕ from_parts 0 4764 ⊕ reads 8 ⊕ writes 6

  unfoldable pub attest : Weight
  attest = from_parts 134_234_000 0 ⊕ from_parts 0 4764 ⊕ reads 9 ⊕ writes 7

  unfoldable pub move_claim : Weight
  move_claim = from_parts 29_763_000 0 ⊕ from_parts 0 3834 ⊕ reads 4 ⊕ writes 7
