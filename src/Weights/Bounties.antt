-- ===== src/Weights/Bounties.antt =====
-- The weight functions of `pallet_bounties`
-- (polkadot-parachains/integritee-runtime/src/weights/pallet_bounties.rs).
pub mod Laws
pub mod Storage
use parachain.Base.{ℕ}
use parachain.Weights.Interface.{Weights, u64_saturating_mul}

module _ (W : Weights) where
  open W use {Weight, from_parts, saturating_add, saturating_mul, reads, writes}

  infixl 65 ◌⊕◌
  abbrev ◌⊕◌ : Weight → Weight → Weight
  a ⊕ b = saturating_add a b

  unfoldable pub propose_bounty : ℕ → Weight
  propose_bounty d =
      from_parts 29_403_164 0
      ⊕ from_parts 0 3593
      ⊕ saturating_mul (from_parts 687 0) d
      ⊕ reads 2
      ⊕ writes 4

  unfoldable pub approve_bounty : Weight
  approve_bounty = from_parts 11_325_000 0 ⊕ from_parts 0 3642 ⊕ reads 2 ⊕ writes 2

  unfoldable pub propose_curator : Weight
  propose_curator = from_parts 10_113_000 0 ⊕ from_parts 0 3642 ⊕ reads 1 ⊕ writes 1

  unfoldable pub unassign_curator : Weight
  unassign_curator = from_parts 40_641_000 0 ⊕ from_parts 0 3642 ⊕ reads 2 ⊕ writes 2

  unfoldable pub accept_curator : Weight
  accept_curator = from_parts 27_104_000 0 ⊕ from_parts 0 3642 ⊕ reads 2 ⊕ writes 2

  unfoldable pub award_bounty : Weight
  award_bounty = from_parts 19_626_000 0 ⊕ from_parts 0 3642 ⊕ reads 2 ⊕ writes 1

  unfoldable pub claim_bounty : Weight
  claim_bounty = from_parts 110_661_000 0 ⊕ from_parts 0 8799 ⊕ reads 5 ⊕ writes 6

  unfoldable pub close_bounty_proposed : Weight
  close_bounty_proposed = from_parts 45_940_000 0 ⊕ from_parts 0 3642 ⊕ reads 3 ⊕ writes 3

  unfoldable pub close_bounty_active : Weight
  close_bounty_active = from_parts 75_522_000 0 ⊕ from_parts 0 6196 ⊕ reads 4 ⊕ writes 4

  unfoldable pub extend_bounty_expiry : Weight
  extend_bounty_expiry = from_parts 15_613_000 0 ⊕ from_parts 0 3642 ⊕ reads 1 ⊕ writes 1

  unfoldable pub spend_funds : ℕ → Weight
  spend_funds b =
      from_parts 4_351_000 0
      ⊕ from_parts 0 1887
      ⊕ saturating_mul (from_parts 38_149_515 0) b
      ⊕ reads 1
      ⊕ reads (u64_saturating_mul 3 b)
      ⊕ writes 1
      ⊕ writes (u64_saturating_mul 3 b)
      ⊕ saturating_mul (from_parts 0 5206) b
