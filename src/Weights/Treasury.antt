-- ===== src/Weights/Treasury.antt =====
-- The weight functions of `pallet_treasury`
-- (polkadot-parachains/integritee-runtime/src/weights/pallet_treasury.rs).
pub mod Laws
pub mod Storage
use parachain.Base.{ℕ}
use parachain.Weights.Interface.{Weights, u64_saturating_mul}

module _ (W : Weights) where
  open W use {Weight, from_parts, saturating_add, saturating_mul, reads, writes}

  infixl 65 ◌⊕◌
  abbrev ◌⊕◌ : Weight → Weight → Weight
  a ⊕ b = saturating_add a b

  unfoldable pub spend : Weight
  spend = from_parts 25_710_000 0 ⊕ from_parts 0 1526 ⊕ reads 2 ⊕ writes 3

  unfoldable pub propose_spend : Weight
  propose_spend = from_parts 49_713_000 0 ⊕ from_parts 0 1489 ⊕ reads 1 ⊕ writes 2

  unfoldable pub reject_proposal : Weight
  reject_proposal = from_parts 50_673_000 0 ⊕ from_parts 0 3593 ⊕ reads 2 ⊕ writes 2

  unfoldable pub approve_proposal : ℕ → Weight
  approve_proposal _ = from_parts 13_303_916 0 ⊕ from_parts 0 3573 ⊕ reads 2 ⊕ writes 1

  unfoldable pub remove_approval : Weight
  remove_approval = from_parts 6_613_000 0 ⊕ from_parts 0 1526 ⊕ reads 1 ⊕ writes 1

  unfoldable pub on_initialize_proposals : ℕ → Weight
  on_initialize_proposals p =
      from_parts 44_244_231 0
      ⊕ from_parts 0 3593
      ⊕ saturating_mul (from_parts 44_905_604 0) p
      ⊕ reads 5
      ⊕ reads (u64_saturating_mul 3 p)
      ⊕ writes 5
      ⊕ writes (u64_saturating_mul 3 p)
      ⊕ saturating_mul (from_parts 0 5206) p
