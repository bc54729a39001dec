-- ===== src/Weights/Utility/Laws.antt =====
-- The components of the weight functions of `pallet_utility`, what their source documents of each,
-- and what they charge (polkadot-parachains/integritee-runtime/src/weights/pallet_utility.rs).
use parachain.Base.{ℕ, ◌≤◌, ◌≡◌, arith}
use parachain.Weights.Interface.{Weights, counting}
use parachain.Weights.Interface.Laws.{AreDocumented, saturate-le, saturate_of_le, weight_laws}
use parachain.Weights.Utility

-- The functions, with their components.
pub data Call : Type 0 where
  batch : ℕ → Call
  as_derivative : Call
  batch_all : ℕ → Call
  dispatch_as : Call
  force_batch : ℕ → Call

unfoldable pub weight : (W : Weights) → Call → W.Weight
unfolding Utility.batch Utility.as_derivative Utility.batch_all Utility.dispatch_as
    Utility.force_batch
weight W (batch c) = Utility.batch W c
weight W as_derivative = Utility.as_derivative W
weight W (batch_all c) = Utility.batch_all W c
weight W dispatch_as = Utility.dispatch_as W
weight W (force_batch c) = Utility.force_batch W c

-- "The range of component ... is ..."
abbrev pub InRange : Call → Type 0
InRange (batch c) = (c ≤ 1000)
InRange (batch_all c) = (c ≤ 1000)
InRange (force_batch c) = (c ≤ 1000)
InRange _ = Unit {0}

-- "Estimated: ...", the size of the proof in bytes.
abbrev pub estimated : Call → ℕ
estimated (batch _) = 0
estimated as_derivative = 0
estimated (batch_all _) = 0
estimated dispatch_as = 0
estimated (force_batch _) = 0

-- "Storage: ... (r:... w:...)", added up.
abbrev pub storage : Call → ℕ × ℕ
storage (batch _) = (0, 0)
storage as_derivative = (0, 0)
storage (batch_all _) = (0, 0)
storage dispatch_as = (0, 0)
storage (force_batch _) = (0, 0)

-- The component at which the accesses were counted, where they depend on one.
abbrev pub IsCounted : Call → Type 0
IsCounted _ = Unit {0}

pub estimated-le : (c : Call) → InRange c → estimated c ≤ 2_621_440
estimated-le (batch c) h = omega arith
estimated-le _ h = omega arith

module _ (W : Weights) ⦃D : AreDocumented W⦄ where
  -- In the documented ranges the proof size is the documented estimate: nothing saturates.
  pub proof_size-weight : (c : Call) → InRange c → W.proof_size (weight W c) ≡ estimated c
  unfolding weight
  proof_size-weight (batch c) h = simp weight_laws (omega (arith, saturate_of_le))
  proof_size-weight _ h = simp weight_laws (omega (arith, saturate_of_le))

  -- In the documented ranges, with storage as fast as documented, the execution takes at most a
  -- quarter of a second.
  pub ref_time-weight-le :
      D.read ≤ 25_000_000
      → D.write ≤ 100_000_000
      → (c : Call) → InRange c
      → W.ref_time (weight W c) ≤ 250_000_000_000
  unfolding weight
  ref_time-weight-le fast quick (batch c) h = simp weight_laws (omega (arith, saturate-le))
  ref_time-weight-le fast quick _ h = simp weight_laws (omega (arith, saturate-le))

-- At the counted component the weight charges the documented accesses, no more and no fewer.
pub weight-counting : (c : Call) → IsCounted c → weight counting c ≡ storage c
unfolding weight
weight-counting (batch c) h = ground arith
weight-counting _ h = ground arith
