-- ===== src/Weights/Democracy.antt =====
-- The weight functions of `pallet_democracy`
-- (polkadot-parachains/integritee-runtime/src/weights/pallet_democracy.rs).
pub mod Laws
pub mod Storage
use parachain.Base.{ℕ}
use parachain.Weights.Interface.{Weights, u64_saturating_mul}

module _ (W : Weights) where
  open W use {Weight, from_parts, saturating_add, saturating_mul, reads, writes}

  infixl 65 ◌⊕◌
  abbrev ◌⊕◌ : Weight → Weight → Weight
  a ⊕ b = saturating_add a b

  unfoldable pub propose : Weight
  propose = from_parts 58_488_000 0 ⊕ from_parts 0 18_187 ⊕ reads 3 ⊕ writes 3

  unfoldable pub second : Weight
  second = from_parts 43_574_000 0 ⊕ from_parts 0 6695 ⊕ reads 1 ⊕ writes 1

  unfoldable pub vote_new : Weight
  vote_new = from_parts 54_476_000 0 ⊕ from_parts 0 7260 ⊕ reads 4 ⊕ writes 3

  unfoldable pub vote_existing : Weight
  vote_existing = from_parts 58_900_000 0 ⊕ from_parts 0 7260 ⊕ reads 4 ⊕ writes 3

  unfoldable pub emergency_cancel : Weight
  emergency_cancel = from_parts 24_117_000 0 ⊕ from_parts 0 3666 ⊕ reads 3 ⊕ writes 3

  unfoldable pub blacklist : Weight
  blacklist = from_parts 109_037_000 0 ⊕ from_parts 0 18_187 ⊕ reads 9 ⊕ writes 8

  unfoldable pub external_propose : Weight
  external_propose = from_parts 11_946_000 0 ⊕ from_parts 0 6703 ⊕ reads 2 ⊕ writes 1

  unfoldable pub external_propose_majority : Weight
  external_propose_majority = from_parts 3_048_000 0 ⊕ from_parts 0 0 ⊕ writes 1

  unfoldable pub external_propose_default : Weight
  external_propose_default = from_parts 3_023_000 0 ⊕ from_parts 0 0 ⊕ writes 1

  unfoldable pub fast_track : Weight
  fast_track = from_parts 26_197_000 0 ⊕ from_parts 0 3518 ⊕ reads 3 ⊕ writes 5

  unfoldable pub veto_external : Weight
  veto_external = from_parts 29_337_000 0 ⊕ from_parts 0 6703 ⊕ reads 3 ⊕ writes 3

  unfoldable pub cancel_proposal : Weight
  cancel_proposal = from_parts 91_023_000 0 ⊕ from_parts 0 18_187 ⊕ reads 5 ⊕ writes 5

  unfoldable pub cancel_referendum : Weight
  cancel_referendum = from_parts 18_587_000 0 ⊕ from_parts 0 3518 ⊕ reads 1 ⊕ writes 2

  unfoldable pub on_initialize_base : ℕ → Weight
  on_initialize_base r =
      from_parts 8_007_126 0
      ⊕ from_parts 0 1489
      ⊕ saturating_mul (from_parts 2_758_733 0) r
      ⊕ reads 2
      ⊕ reads (u64_saturating_mul 1 r)
      ⊕ writes 1
      ⊕ saturating_mul (from_parts 0 2676) r

  unfoldable pub on_initialize_base_with_launch_period : ℕ → Weight
  on_initialize_base_with_launch_period r =
      from_parts 11_058_666 0
      ⊕ from_parts 0 18_187
      ⊕ saturating_mul (from_parts 2_756_856 0) r
      ⊕ reads 5
      ⊕ reads (u64_saturating_mul 1 r)
      ⊕ writes 1
      ⊕ saturating_mul (from_parts 0 2676) r

  unfoldable pub delegate : ℕ → Weight
  delegate r =
      from_parts 45_954_119 0
      ⊕ from_parts 0 19_800
      ⊕ saturating_mul (from_parts 4_010_359 0) r
      ⊕ reads 5
      ⊕ reads (u64_saturating_mul 1 r)
      ⊕ writes 4
      ⊕ writes (u64_saturating_mul 1 r)
      ⊕ saturating_mul (from_parts 0 2676) r

  unfoldable pub undelegate : ℕ → Weight
  undelegate r =
      from_parts 22_080_284 0
      ⊕ from_parts 0 13_530
      ⊕ saturating_mul (from_parts 3_950_719 0) r
      ⊕ reads 2
      ⊕ reads (u64_saturating_mul 1 r)
      ⊕ writes 2
      ⊕ writes (u64_saturating_mul 1 r)
      ⊕ saturating_mul (from_parts 0 2676) r

  unfoldable pub clear_public_proposals : Weight
  clear_public_proposals = from_parts 3_088_000 0 ⊕ from_parts 0 0 ⊕ writes 1

  unfoldable pub unlock_remove : ℕ → Weight
  unlock_remove r =
      from_parts 36_353_471 0
      ⊕ from_parts 0 7260
      ⊕ saturating_mul (from_parts 91_700 0) r
      ⊕ reads 4
      ⊕ writes 3

  unfoldable pub unlock_set : ℕ → Weight
  unlock_set r =
      from_parts 34_942_455 0
      ⊕ from_parts 0 7260
      ⊕ saturating_mul (from_parts 109_395 0) r
      ⊕ reads 4
      ⊕ writes 3

  unfoldable pub remove_vote : ℕ → Weight
  remove_vote r =
      from_parts 18_135_042 0
      ⊕ from_parts 0 7260
      ⊕ saturating_mul (from_parts 101_048 0) r
      ⊕ reads 2
      ⊕ writes 2

  unfoldable pub remove_other_vote : ℕ → Weight
  remove_other_vote r =
      from_parts 18_025_595 0
      ⊕ from_parts 0 7260
      ⊕ saturating_mul (from_parts 101_940 0) r
      ⊕ reads 2
      ⊕ writes 2

  unfoldable pub set_external_metadata : Weight
  set_external_metadata = from_parts 17_245_000 0 ⊕ from_parts 0 3556 ⊕ reads 2 ⊕ writes 1

  unfoldable pub clear_external_metadata : Weight
  clear_external_metadata = from_parts 15_170_000 0 ⊕ from_parts 0 3518 ⊕ reads 2 ⊕ writes 1

  unfoldable pub set_proposal_metadata : Weight
  set_proposal_metadata = from_parts 38_393_000 0 ⊕ from_parts 0 18_187 ⊕ reads 2 ⊕ writes 1

  unfoldable pub clear_proposal_metadata : Weight
  clear_proposal_metadata = from_parts 35_538_000 0 ⊕ from_parts 0 18_187 ⊕ reads 2 ⊕ writes 1

  unfoldable pub set_referendum_metadata : Weight
  set_referendum_metadata = from_parts 13_081_000 0 ⊕ from_parts 0 3556 ⊕ reads 1 ⊕ writes 1

  unfoldable pub clear_referendum_metadata : Weight
  clear_referendum_metadata = from_parts 17_020_000 0 ⊕ from_parts 0 3666 ⊕ reads 2 ⊕ writes 1
