-- ===== src/Weights/Multisig/Laws.antt =====
-- The components of the weight functions of `pallet_multisig`, what their source documents of
-- each, and what they charge
-- (polkadot-parachains/integritee-runtime/src/weights/pallet_multisig.rs).
use parachain.Base.{ℕ, ◌≤◌, ◌≡◌, arith}
use parachain.Weights.Interface.{Weights, counting}
use parachain.Weights.Interface.Laws.{AreDocumented, saturate-le, saturate_of_le, weight_laws}
use parachain.Weights.Multisig

-- The functions, with their components.
pub data Call : Type 0 where
  as_multi_threshold_1 : ℕ → Call
  as_multi_create : ℕ → ℕ → Call
  as_multi_approve : ℕ → ℕ → Call
  as_multi_complete : ℕ → ℕ → Call
  approve_as_multi_create : ℕ → Call
  approve_as_multi_approve : ℕ → Call
  cancel_as_multi : ℕ → Call

unfoldable pub weight : (W : Weights) → Call → W.Weight
unfolding Multisig.as_multi_threshold_1 Multisig.as_multi_create Multisig.as_multi_approve
    Multisig.as_multi_complete Multisig.approve_as_multi_create Multisig.approve_as_multi_approve
    Multisig.cancel_as_multi
weight W (as_multi_threshold_1 z) = Multisig.as_multi_threshold_1 W z
weight W (as_multi_create s z) = Multisig.as_multi_create W s z
weight W (as_multi_approve s z) = Multisig.as_multi_approve W s z
weight W (as_multi_complete s z) = Multisig.as_multi_complete W s z
weight W (approve_as_multi_create s) = Multisig.approve_as_multi_create W s
weight W (approve_as_multi_approve s) = Multisig.approve_as_multi_approve W s
weight W (cancel_as_multi s) = Multisig.cancel_as_multi W s

-- "The range of component ... is ..."
abbrev pub InRange : Call → Type 0
InRange (as_multi_threshold_1 z) = (z ≤ 10_000)
InRange (as_multi_create s z) = (2 ≤ s) × (s ≤ 10) × (z ≤ 10_000)
InRange (as_multi_approve s z) = (3 ≤ s) × (s ≤ 10) × (z ≤ 10_000)
InRange (as_multi_complete s z) = (2 ≤ s) × (s ≤ 10) × (z ≤ 10_000)
InRange (approve_as_multi_create s) = (2 ≤ s) × (s ≤ 10)
InRange (approve_as_multi_approve s) = (2 ≤ s) × (s ≤ 10)
InRange (cancel_as_multi s) = (2 ≤ s) × (s ≤ 10)

-- "Estimated: ...", the size of the proof in bytes.
abbrev pub estimated : Call → ℕ
estimated (as_multi_threshold_1 _) = 0
estimated (as_multi_create _ _) = 3930
estimated (as_multi_approve _ _) = 3930
estimated (as_multi_complete _ _) = 3930
estimated (approve_as_multi_create _) = 3930
estimated (approve_as_multi_approve _) = 3930
estimated (cancel_as_multi _) = 3930

-- "Storage: ... (r:... w:...)", added up.
abbrev pub storage : Call → ℕ × ℕ
storage (as_multi_threshold_1 _) = (0, 0)
storage (as_multi_create _ _) = (1, 1)
storage (as_multi_approve _ _) = (1, 1)
storage (as_multi_complete _ _) = (2, 2)
storage (approve_as_multi_create _) = (1, 1)
storage (approve_as_multi_approve _) = (1, 1)
storage (cancel_as_multi _) = (1, 1)

-- The component at which the accesses were counted, where they depend on one.
abbrev pub IsCounted : Call → Type 0
IsCounted _ = Unit {0}

pub estimated-le : (c : Call) → InRange c → estimated c ≤ 2_621_440
estimated-le (as_multi_threshold_1 z) h = omega arith
estimated-le _ h = omega arith

module _ (W : Weights) ⦃D : AreDocumented W⦄ where
  -- In the documented ranges the proof size is the documented estimate: nothing saturates.
  pub proof_size-weight : (c : Call) → InRange c → W.proof_size (weight W c) ≡ estimated c
  unfolding weight
  proof_size-weight (as_multi_threshold_1 z) h = simp weight_laws (omega (arith, saturate_of_le))
  proof_size-weight _ h = simp weight_laws (omega (arith, saturate_of_le))

  -- In the documented ranges, with storage as fast as documented, the execution takes at most a
  -- quarter of a second.
  pub ref_time-weight-le :
      D.read ≤ 25_000_000
      → D.write ≤ 100_000_000
      → (c : Call) → InRange c
      → W.ref_time (weight W c) ≤ 250_000_000_000
  unfolding weight
  ref_time-weight-le fast quick (as_multi_threshold_1 z) h =
      simp weight_laws (omega (arith, saturate-le))
  ref_time-weight-le fast quick _ h = simp weight_laws (omega (arith, saturate-le))

-- At the counted component the weight charges the documented accesses, no more and no fewer.
pub weight-counting : (c : Call) → IsCounted c → weight counting c ≡ storage c
unfolding weight
weight-counting (as_multi_threshold_1 z) h = ground arith
weight-counting _ h = ground arith
