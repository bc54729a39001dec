-- ===== src/Weights/Collective.antt =====
-- The weight functions of `pallet_collective`
-- (polkadot-parachains/integritee-runtime/src/weights/pallet_collective.rs).
pub mod Laws
pub mod Storage
use parachain.Base.{ℕ}
use parachain.Weights.Interface.{Weights, u64_saturating_mul}

module _ (W : Weights) where
  open W use {Weight, from_parts, saturating_add, saturating_mul, reads, writes}

  infixl 65 ◌⊕◌
  abbrev ◌⊕◌ : Weight → Weight → Weight
  a ⊕ b = saturating_add a b

  unfoldable pub set_members : ℕ → ℕ → ℕ → Weight
  set_members m _ p =
      from_parts 19_780_000 0
      ⊕ from_parts 0 15_728
      ⊕ saturating_mul (from_parts 4_733_097 0) m
      ⊕ saturating_mul (from_parts 7_913_656 0) p
      ⊕ reads 2
      ⊕ reads (u64_saturating_mul 1 p)
      ⊕ writes 2
      ⊕ writes (u64_saturating_mul 1 p)
      ⊕ saturating_mul (from_parts 0 1967) m
      ⊕ saturating_mul (from_parts 0 4332) p

  unfoldable pub execute : ℕ → ℕ → Weight
  execute b m =
      from_parts 13_918_872 0
      ⊕ from_parts 0 1555
      ⊕ saturating_mul (from_parts 5406 0) b
      ⊕ saturating_mul (from_parts 2299 0) m
      ⊕ reads 1
      ⊕ saturating_mul (from_parts 0 32) m

  unfoldable pub propose_execute : ℕ → ℕ → Weight
  propose_execute _ m =
      from_parts 21_774_765 0
      ⊕ from_parts 0 3535
      ⊕ saturating_mul (from_parts 25_811 0) m
      ⊕ reads 2
      ⊕ saturating_mul (from_parts 0 32) m

  unfoldable pub propose_proposed : ℕ → ℕ → ℕ → Weight
  propose_proposed b m p =
      from_parts 26_192_081 0
      ⊕ from_parts 0 3751
      ⊕ saturating_mul (from_parts 2273 0) b
      ⊕ saturating_mul (from_parts 10_434 0) m
      ⊕ saturating_mul (from_parts 198_442 0) p
      ⊕ reads 4
      ⊕ writes 4
      ⊕ saturating_mul (from_parts 0 33) m
      ⊕ saturating_mul (from_parts 0 36) p

  unfoldable pub vote : ℕ → Weight
  vote m =
      from_parts 25_796_554 0
      ⊕ from_parts 0 4272
      ⊕ saturating_mul (from_parts 39_017 0) m
      ⊕ reads 2
      ⊕ writes 1
      ⊕ saturating_mul (from_parts 0 64) m

  unfoldable pub close_early_disapproved : ℕ → ℕ → Weight
  close_early_disapproved m p =
      from_parts 28_160_714 0
      ⊕ from_parts 0 3842
      ⊕ saturating_mul (from_parts 26_069 0) m
      ⊕ saturating_mul (from_parts 191_528 0) p
      ⊕ reads 3
      ⊕ writes 3
      ⊕ saturating_mul (from_parts 0 65) m
      ⊕ saturating_mul (from_parts 0 36) p

  unfoldable pub close_early_approved : ℕ → ℕ → ℕ → Weight
  close_early_approved b m p =
      from_parts 43_958_190 0
      ⊕ from_parts 0 4016
      ⊕ saturating_mul (from_parts 241_670 0) p
      ⊕ reads 4
      ⊕ writes 3
      ⊕ saturating_mul (from_parts 0 1) b
      ⊕ saturating_mul (from_parts 0 66) m
      ⊕ saturating_mul (from_parts 0 40) p

  unfoldable pub close_disapproved : ℕ → ℕ → Weight
  close_disapproved m p =
      from_parts 30_046_473 0
      ⊕ from_parts 0 3862
      ⊕ saturating_mul (from_parts 22_074 0) m
      ⊕ saturating_mul (from_parts 180_626 0) p
      ⊕ reads 4
      ⊕ writes 3
      ⊕ saturating_mul (from_parts 0 65) m
      ⊕ saturating_mul (from_parts 0 36) p

  unfoldable pub close_approved : ℕ → ℕ → ℕ → Weight
  close_approved b m p =
      from_parts 40_816_742 0
      ⊕ from_parts 0 4036
      ⊕ saturating_mul (from_parts 1842 0) b
      ⊕ saturating_mul (from_parts 20_012 0) m
      ⊕ saturating_mul (from_parts 208_678 0) p
      ⊕ reads 5
      ⊕ writes 3
      ⊕ saturating_mul (from_parts 0 1) b
      ⊕ saturating_mul (from_parts 0 66) m
      ⊕ saturating_mul (from_parts 0 40) p

  unfoldable pub disapprove_proposal : ℕ → Weight
  disapprove_proposal p =
      from_parts 16_378_506 0
      ⊕ from_parts 0 1711
      ⊕ saturating_mul (from_parts 169_311 0) p
      ⊕ reads 1
      ⊕ writes 3
      ⊕ saturating_mul (from_parts 0 32) p
