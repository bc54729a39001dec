-- ===== src/Weights/ChildBounties.antt =====
-- The weight functions of `pallet_child_bounties`
-- (polkadot-parachains/integritee-runtime/src/weights/pallet_child_bounties.rs).
pub mod Laws
pub mod Storage
use parachain.Base.{ℕ}
use parachain.Weights.Interface.{Weights}

module _ (W : Weights) where
  open W use {Weight, from_parts, saturating_add, reads, writes}

  infixl 65 ◌⊕◌
  abbrev ◌⊕◌ : Weight → Weight → Weight
  a ⊕ b = saturating_add a b

  unfoldable pub add_child_bounty : ℕ → Weight
  add_child_bounty _ = from_parts 89_810_999 0 ⊕ from_parts 0 6196 ⊕ reads 5 ⊕ writes 6

  unfoldable pub propose_curator : Weight
  propose_curator = from_parts 17_754_000 0 ⊕ from_parts 0 3642 ⊕ reads 3 ⊕ writes 2

  unfoldable pub accept_curator : Weight
  accept_curator = from_parts 32_890_000 0 ⊕ from_parts 0 3642 ⊕ reads 3 ⊕ writes 2

  unfoldable pub unassign_curator : Weight
  unassign_curator = from_parts 35_721_000 0 ⊕ from_parts 0 3642 ⊕ reads 3 ⊕ writes 2

  unfoldable pub award_child_bounty : Weight
  award_child_bounty = from_parts 21_820_000 0 ⊕ from_parts 0 3642 ⊕ reads 2 ⊕ writes 1

  unfoldable pub claim_child_bounty : Weight
  claim_child_bounty = from_parts 122_606_000 0 ⊕ from_parts 0 8799 ⊕ reads 5 ⊕ writes 6

  unfoldable pub close_child_bounty_added : Weight
  close_child_bounty_added = from_parts 75_441_000 0 ⊕ from_parts 0 6196 ⊕ reads 6 ⊕ writes 6

  unfoldable pub close_child_bounty_active : Weight
  close_child_bounty_active = from_parts 97_896_000 0 ⊕ from_parts 0 8799 ⊕ reads 7 ⊕ writes 7
