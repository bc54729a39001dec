-- ===== src/Weights/Vesting.antt =====
-- The weight functions of `pallet_vesting`
-- (polkadot-parachains/integritee-runtime/src/weights/pallet_vesting.rs).
pub mod Laws
pub mod Storage
use parachain.Base.{ℕ}
use parachain.Weights.Interface.{Weights}

module _ (W : Weights) where
  open W use {Weight, from_parts, saturating_add, saturating_mul, reads, writes}

  infixl 65 ◌⊕◌
  abbrev ◌⊕◌ : Weight → Weight → Weight
  a ⊕ b = saturating_add a b

  unfoldable pub vest_locked : ℕ → ℕ → Weight
  vest_locked _ s =
      from_parts 36_002_632 0
      ⊕ from_parts 0 4764
      ⊕ saturating_mul (from_parts 73_554 0) s
      ⊕ reads 3
      ⊕ writes 2

  unfoldable pub vest_unlocked : ℕ → ℕ → Weight
  vest_unlocked l s =
      from_parts 26_430_531 0
      ⊕ from_parts 0 4764
      ⊕ saturating_mul (from_parts 228_441 0) l
      ⊕ saturating_mul (from_parts 395_622 0) s
      ⊕ reads 3
      ⊕ writes 2

  unfoldable pub vest_other_locked : ℕ → ℕ → Weight
  vest_other_locked _ s =
      from_parts 37_267_856 0
      ⊕ from_parts 0 4764
      ⊕ saturating_mul (from_parts 69_316 0) s
      ⊕ reads 4
      ⊕ writes 3

  unfoldable pub vest_other_unlocked : ℕ → ℕ → Weight
  vest_other_unlocked _ _ = from_parts 45_850_154 0 ⊕ from_parts 0 4764 ⊕ reads 4 ⊕ writes 3

  unfoldable pub vested_transfer : ℕ → ℕ → Weight
  vested_transfer l s =
      from_parts 59_910_288 0
      ⊕ from_parts 0 4764
      ⊕ saturating_mul (from_parts 489_110 0) l
      ⊕ saturating_mul (from_parts 411_972 0) s
      ⊕ reads 4
      ⊕ writes 3

  unfoldable pub force_vested_transfer : ℕ → ℕ → Weight
  force_vested_transfer l s =
      from_parts 77_522_220 0
      ⊕ from_parts 0 6196
      ⊕ saturating_mul (from_parts 206_202 0) l
      ⊕ saturating_mul (from_parts 69_866 0) s
      ⊕ reads 5
      ⊕ writes 4

  unfoldable pub not_unlocking_merge_schedules : ℕ → ℕ → Weight
  not_unlocking_merge_schedules l s =
      from_parts 34_825_982 0
      ⊕ from_parts 0 4764
      ⊕ saturating_mul (from_parts 51_388 0) l
      ⊕ saturating_mul (from_parts 100_664 0) s
      ⊕ reads 4
      ⊕ writes 3

  unfoldable pub unlocking_merge_schedules : ℕ → ℕ → Weight
  unlocking_merge_schedules l s =
      from_parts 36_867_268 0
      ⊕ from_parts 0 4764
      ⊕ saturating_mul (from_parts 95_340 0) l
      ⊕ saturating_mul (from_parts 193_490 0) s
      ⊕ reads 4
      ⊕ writes 3
