-- ===== src/Weights/Balances.antt =====
-- The weight functions of `pallet_balances`
-- (polkadot-parachains/integritee-runtime/src/weights/pallet_balances.rs).
pub mod Laws
pub mod Storage
use parachain.Base.{ℕ}
use parachain.Weights.Interface.{Weights, u64_saturating_mul}

module _ (W : Weights) where
  open W use {Weight, from_parts, saturating_add, saturating_mul, reads, writes}

  infixl 65 ◌⊕◌
  abbrev ◌⊕◌ : Weight → Weight → Weight
  a ⊕ b = saturating_add a b

  unfoldable pub transfer_allow_death : Weight
  transfer_allow_death = from_parts 93_004_000 0 ⊕ from_parts 0 3593 ⊕ reads 1 ⊕ writes 1

  unfoldable pub transfer_keep_alive : Weight
  transfer_keep_alive = from_parts 70_412_000 0 ⊕ from_parts 0 3593 ⊕ reads 1 ⊕ writes 1

  unfoldable pub force_set_balance_creating : Weight
  force_set_balance_creating = from_parts 22_880_000 0 ⊕ from_parts 0 3593 ⊕ reads 1 ⊕ writes 1

  unfoldable pub force_set_balance_killing : Weight
  force_set_balance_killing = from_parts 34_220_000 0 ⊕ from_parts 0 3593 ⊕ reads 1 ⊕ writes 1

  unfoldable pub force_transfer : Weight
  force_transfer = from_parts 90_183_000 0 ⊕ from_parts 0 6196 ⊕ reads 2 ⊕ writes 2

  unfoldable pub transfer_all : Weight
  transfer_all = from_parts 80_531_000 0 ⊕ from_parts 0 3593 ⊕ reads 1 ⊕ writes 1

  unfoldable pub force_unreserve : Weight
  force_unreserve = from_parts 26_729_000 0 ⊕ from_parts 0 3593 ⊕ reads 1 ⊕ writes 1

  unfoldable pub upgrade_accounts : ℕ → Weight
  upgrade_accounts u =
      from_parts 25_305_000 0
      ⊕ from_parts 0 990
      ⊕ saturating_mul (from_parts 16_709_490 0) u
      ⊕ reads (u64_saturating_mul 1 u)
      ⊕ writes (u64_saturating_mul 1 u)
      ⊕ saturating_mul (from_parts 0 2603) u
