-- ===== src/Weights/Treasury/Laws.antt =====
-- The components of the weight functions of `pallet_treasury`, what their source documents of
-- each, and what they charge
-- (polkadot-parachains/integritee-runtime/src/weights/pallet_treasury.rs).
use parachain.Base.{ℕ, ◌+◌, ◌*◌, ◌≤◌, ◌≡◌, arith}
use native.Mathlib.Nat.{mul-le-mul}
use parachain.Weights.Interface.{Weights, u64_saturating_mul, counting}
use parachain.Weights.Interface.Laws.{
  AreDocumented, saturate-le, saturate_of_le, u64_saturating_mul-le, weight_laws,
}
use parachain.Weights.Treasury

-- The functions, with their components.
pub data Call : Type 0 where
  spend : Call
  propose_spend : Call
  reject_proposal : Call
  approve_proposal : ℕ → Call
  remove_approval : Call
  on_initialize_proposals : ℕ → Call

unfoldable pub weight : (W : Weights) → Call → W.Weight
unfolding Treasury.spend Treasury.propose_spend Treasury.reject_proposal Treasury.approve_proposal
    Treasury.remove_approval Treasury.on_initialize_proposals
weight W spend = Treasury.spend W
weight W propose_spend = Treasury.propose_spend W
weight W reject_proposal = Treasury.reject_proposal W
weight W (approve_proposal p) = Treasury.approve_proposal W p
weight W remove_approval = Treasury.remove_approval W
weight W (on_initialize_proposals p) = Treasury.on_initialize_proposals W p

-- "The range of component ... is ..."
abbrev pub InRange : Call → Type 0
InRange (approve_proposal p) = (p ≤ 9)
InRange (on_initialize_proposals p) = (p ≤ 10)
InRange _ = Unit {0}

-- "Estimated: ...", the size of the proof in bytes.
abbrev pub estimated : Call → ℕ
estimated spend = 1526
estimated propose_spend = 1489
estimated reject_proposal = 3593
estimated (approve_proposal _) = 3573
estimated remove_approval = 1526
estimated (on_initialize_proposals p) = 3593 + p * 5206

-- "Storage: ... (r:... w:...)", added up.
abbrev pub storage : Call → ℕ × ℕ
storage spend = (2, 3)
storage propose_spend = (1, 2)
storage reject_proposal = (2, 2)
storage (approve_proposal _) = (2, 1)
storage remove_approval = (1, 1)
storage (on_initialize_proposals _) = (35, 35)

-- The component at which the accesses were counted, where they depend on one.
abbrev pub IsCounted : Call → Type 0
IsCounted (on_initialize_proposals p) = p ≡ 10
IsCounted _ = Unit {0}

pub estimated-le : (c : Call) → InRange c → estimated c ≤ 2_621_440
estimated-le spend h = omega arith
estimated-le _ h = omega arith

module _ (W : Weights) ⦃D : AreDocumented W⦄ where
  -- In the documented ranges the proof size is the documented estimate: nothing saturates.
  pub proof_size-weight : (c : Call) → InRange c → W.proof_size (weight W c) ≡ estimated c
  unfolding weight
  proof_size-weight spend h = simp weight_laws (omega (arith, saturate_of_le))
  proof_size-weight _ h = simp weight_laws (omega (arith, saturate_of_le))

  -- In the documented ranges, with storage as fast as documented, the execution takes at most a
  -- quarter of a second.
  pub ref_time-weight-le :
      D.read ≤ 25_000_000
      → D.write ≤ 100_000_000
      → (c : Call) → InRange c
      → W.ref_time (weight W c) ≤ 250_000_000_000
  unfolding weight
  ref_time-weight-le fast quick (on_initialize_proposals p) h = simp weight_laws (
      omega (
        arith,
        saturate-le,
        mul-le-mul fast (u64_saturating_mul-le 3 p),
        mul-le-mul quick (u64_saturating_mul-le 3 p),
      ))
  ref_time-weight-le fast quick spend h = simp weight_laws (omega (arith, saturate-le))
  ref_time-weight-le fast quick _ h = simp weight_laws (omega (arith, saturate-le))

-- At the counted component the weight charges the documented accesses, no more and no fewer.
pub weight-counting : (c : Call) → IsCounted c → weight counting c ≡ storage c
unfolding weight u64_saturating_mul
weight-counting (on_initialize_proposals p) h = rw h (ground arith)
weight-counting spend h = ground arith
weight-counting _ h = ground arith
