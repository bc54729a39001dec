-- ===== src/Weights/Vesting/Laws.antt =====
-- The components of the weight functions of `pallet_vesting`, what their source documents of each,
-- and what they charge (polkadot-parachains/integritee-runtime/src/weights/pallet_vesting.rs).
use parachain.Base.{ℕ, ◌≤◌, ◌≡◌, arith}
use parachain.Weights.Interface.{Weights, counting}
use parachain.Weights.Interface.Laws.{AreDocumented, saturate-le, saturate_of_le, weight_laws}
use parachain.Weights.Vesting

-- The functions, with their components.
pub data Call : Type 0 where
  vest_locked : ℕ → ℕ → Call
  vest_unlocked : ℕ → ℕ → Call
  vest_other_locked : ℕ → ℕ → Call
  vest_other_unlocked : ℕ → ℕ → Call
  vested_transfer : ℕ → ℕ → Call
  force_vested_transfer : ℕ → ℕ → Call
  not_unlocking_merge_schedules : ℕ → ℕ → Call
  unlocking_merge_schedules : ℕ → ℕ → Call

unfoldable pub weight : (W : Weights) → Call → W.Weight
unfolding Vesting.vest_locked Vesting.vest_unlocked Vesting.vest_other_locked
    Vesting.vest_other_unlocked Vesting.vested_transfer Vesting.force_vested_transfer
    Vesting.not_unlocking_merge_schedules Vesting.unlocking_merge_schedules
weight W (vest_locked l s) = Vesting.vest_locked W l s
weight W (vest_unlocked l s) = Vesting.vest_unlocked W l s
weight W (vest_other_locked l s) = Vesting.vest_other_locked W l s
weight W (vest_other_unlocked l s) = Vesting.vest_other_unlocked W l s
weight W (vested_transfer l s) = Vesting.vested_transfer W l s
weight W (force_vested_transfer l s) = Vesting.force_vested_transfer W l s
weight W (not_unlocking_merge_schedules l s) = Vesting.not_unlocking_merge_schedules W l s
weight W (unlocking_merge_schedules l s) = Vesting.unlocking_merge_schedules W l s

-- "The range of component ... is ..."
abbrev pub InRange : Call → Type 0
InRange (vest_locked l s) = (l ≤ 49) × (1 ≤ s) × (s ≤ 28)
InRange (vest_unlocked l s) = (l ≤ 49) × (1 ≤ s) × (s ≤ 28)
InRange (vest_other_locked l s) = (l ≤ 49) × (1 ≤ s) × (s ≤ 28)
InRange (vest_other_unlocked l s) = (l ≤ 49) × (1 ≤ s) × (s ≤ 28)
InRange (vested_transfer l s) = (l ≤ 49) × (s ≤ 27)
InRange (force_vested_transfer l s) = (l ≤ 49) × (s ≤ 27)
InRange (not_unlocking_merge_schedules l s) = (l ≤ 49) × (2 ≤ s) × (s ≤ 28)
InRange (unlocking_merge_schedules l s) = (l ≤ 49) × (2 ≤ s) × (s ≤ 28)

-- "Estimated: ...", the size of the proof in bytes.
abbrev pub estimated : Call → ℕ
estimated (vest_locked _ _) = 4764
estimated (vest_unlocked _ _) = 4764
estimated (vest_other_locked _ _) = 4764
estimated (vest_other_unlocked _ _) = 4764
estimated (vested_transfer _ _) = 4764
estimated (force_vested_transfer _ _) = 6196
estimated (not_unlocking_merge_schedules _ _) = 4764
estimated (unlocking_merge_schedules _ _) = 4764

-- "Storage: ... (r:... w:...)", added up.
abbrev pub storage : Call → ℕ × ℕ
storage (vest_locked _ _) = (3, 2)
storage (vest_unlocked _ _) = (3, 2)
storage (vest_other_locked _ _) = (4, 3)
storage (vest_other_unlocked _ _) = (4, 3)
storage (vested_transfer _ _) = (4, 3)
storage (force_vested_transfer _ _) = (5, 4)
storage (not_unlocking_merge_schedules _ _) = (4, 3)
storage (unlocking_merge_schedules _ _) = (4, 3)

-- The component at which the accesses were counted, where they depend on one.
abbrev pub IsCounted : Call → Type 0
IsCounted _ = Unit {0}

pub estimated-le : (c : Call) → InRange c → estimated c ≤ 2_621_440
estimated-le (vest_locked l s) h = omega arith
estimated-le _ h = omega arith

module _ (W : Weights) ⦃D : AreDocumented W⦄ where
  -- In the documented ranges the proof size is the documented estimate: nothing saturates.
  pub proof_size-weight : (c : Call) → InRange c → W.proof_size (weight W c) ≡ estimated c
  unfolding weight
  proof_size-weight (vest_locked l s) h = simp weight_laws (omega (arith, saturate_of_le))
  proof_size-weight _ h = simp weight_laws (omega (arith, saturate_of_le))

  -- In the documented ranges, with storage as fast as documented, the execution takes at most a
  -- quarter of a second.
  pub ref_time-weight-le :
      D.read ≤ 25_000_000
      → D.write ≤ 100_000_000
      → (c : Call) → InRange c
      → W.ref_time (weight W c) ≤ 250_000_000_000
  unfolding weight
  ref_time-weight-le fast quick (vest_locked l s) h = simp weight_laws (omega (arith, saturate-le))
  ref_time-weight-le fast quick _ h = simp weight_laws (omega (arith, saturate-le))

-- At the counted component the weight charges the documented accesses, no more and no fewer.
pub weight-counting : (c : Call) → IsCounted c → weight counting c ≡ storage c
unfolding weight
weight-counting (vest_locked l s) h = ground arith
weight-counting _ h = ground arith
