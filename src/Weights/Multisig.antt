-- ===== src/Weights/Multisig.antt =====
-- The weight functions of `pallet_multisig`
-- (polkadot-parachains/integritee-runtime/src/weights/pallet_multisig.rs).
pub mod Laws
pub mod Storage
use parachain.Base.{ℕ}
use parachain.Weights.Interface.{Weights}

module _ (W : Weights) where
  open W use {Weight, from_parts, saturating_add, saturating_mul, reads, writes}

  infixl 65 ◌⊕◌
  abbrev ◌⊕◌ : Weight → Weight → Weight
  a ⊕ b = saturating_add a b

  unfoldable pub as_multi_threshold_1 : ℕ → Weight
  as_multi_threshold_1 z =
      from_parts 9_434_591 0 ⊕ from_parts 0 0 ⊕ saturating_mul (from_parts 1 0) z

  unfoldable pub as_multi_create : ℕ → ℕ → Weight
  as_multi_create s z =
      from_parts 30_902_909 0
      ⊕ from_parts 0 3930
      ⊕ saturating_mul (from_parts 249_624 0) s
      ⊕ saturating_mul (from_parts 1162 0) z
      ⊕ reads 1
      ⊕ writes 1

  unfoldable pub as_multi_approve : ℕ → ℕ → Weight
  as_multi_approve s z =
      from_parts 17_078_329 0
      ⊕ from_parts 0 3930
      ⊕ saturating_mul (from_parts 182_578 0) s
      ⊕ saturating_mul (from_parts 1062 0) z
      ⊕ reads 1
      ⊕ writes 1

  unfoldable pub as_multi_complete : ℕ → ℕ → Weight
  as_multi_complete s z =
      from_parts 33_222_478 0
      ⊕ from_parts 0 3930
      ⊕ saturating_mul (from_parts 346_157 0) s
      ⊕ saturating_mul (from_parts 1181 0) z
      ⊕ reads 2
      ⊕ writes 2

  unfoldable pub approve_as_multi_create : ℕ → Weight
  approve_as_multi_create s =
      from_parts 30_323_391 0
      ⊕ from_parts 0 3930
      ⊕ saturating_mul (from_parts 291_970 0) s
      ⊕ reads 1
      ⊕ writes 1

  unfoldable pub approve_as_multi_approve : ℕ → Weight
  approve_as_multi_approve s =
      from_parts 16_436_811 0
      ⊕ from_parts 0 3930
      ⊕ saturating_mul (from_parts 170_864 0) s
      ⊕ reads 1
      ⊕ writes 1

  unfoldable pub cancel_as_multi : ℕ → Weight
  cancel_as_multi s =
      from_parts 31_005_857 0
      ⊕ from_parts 0 3930
      ⊕ saturating_mul (from_parts 272_297 0) s
      ⊕ reads 1
      ⊕ writes 1
