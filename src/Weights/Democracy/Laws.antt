-- ===== src/Weights/Democracy/Laws.antt =====
-- The components of the weight functions of `pallet_democracy`, what their source documents of
-- each, and what they charge
-- (polkadot-parachains/integritee-runtime/src/weights/pallet_democracy.rs).
use parachain.Base.{ℕ, ◌+◌, ◌*◌, ◌≤◌, ◌≡◌, arith}
use native.Mathlib.Nat.{mul-le-mul}
use parachain.Weights.Interface.{Weights, u64_saturating_mul, counting}
use parachain.Weights.Interface.Laws.{
  AreDocumented, saturate-le, saturate_of_le, u64_saturating_mul-le, weight_laws,
}
use parachain.Weights.Democracy

-- The functions, with their components.
pub data Call : Type 0 where
  propose : Call
  second : Call
  vote_new : Call
  vote_existing : Call
  emergency_cancel : Call
  blacklist : Call
  external_propose : Call
  external_propose_majority : Call
  external_propose_default : Call
  fast_track : Call
  veto_external : Call
  cancel_proposal : Call
  cancel_referendum : Call
  on_initialize_base : ℕ → Call
  on_initialize_base_with_launch_period : ℕ → Call
  delegate : ℕ → Call
  undelegate : ℕ → Call
  clear_public_proposals : Call
  unlock_remove : ℕ → Call
  unlock_set : ℕ → Call
  remove_vote : ℕ → Call
  remove_other_vote : ℕ → Call
  set_external_metadata : Call
  clear_external_metadata : Call
  set_proposal_metadata : Call
  clear_proposal_metadata : Call
  set_referendum_metadata : Call
  clear_referendum_metadata : Call

unfoldable pub weight : (W : Weights) → Call → W.Weight
unfolding Democracy.propose Democracy.second Democracy.vote_new Democracy.vote_existing
    Democracy.emergency_cancel Democracy.blacklist Democracy.external_propose
    Democracy.external_propose_majority Democracy.external_propose_default Democracy.fast_track
    Democracy.veto_external Democracy.cancel_proposal Democracy.cancel_referendum
    Democracy.on_initialize_base Democracy.on_initialize_base_with_launch_period Democracy.delegate
    Democracy.undelegate Democracy.clear_public_proposals Democracy.unlock_remove
    Democracy.unlock_set Democracy.remove_vote Democracy.remove_other_vote
    Democracy.set_external_metadata Democracy.clear_external_metadata
    Democracy.set_proposal_metadata Democracy.clear_proposal_metadata
    Democracy.set_referendum_metadata Democracy.clear_referendum_metadata
weight W propose = Democracy.propose W
weight W second = Democracy.second W
weight W vote_new = Democracy.vote_new W
weight W vote_existing = Democracy.vote_existing W
weight W emergency_cancel = Democracy.emergency_cancel W
weight W blacklist = Democracy.blacklist W
weight W external_propose = Democracy.external_propose W
weight W external_propose_majority = Democracy.external_propose_majority W
weight W external_propose_default = Democracy.external_propose_default W
weight W fast_track = Democracy.fast_track W
weight W veto_external = Democracy.veto_external W
weight W cancel_proposal = Democracy.cancel_proposal W
weight W cancel_referendum = Democracy.cancel_referendum W
weight W (on_initialize_base r) = Democracy.on_initialize_base W r
weight W (on_initialize_base_with_launch_period r) =
    Democracy.on_initialize_base_with_launch_period W r
weight W (delegate r) = Democracy.delegate W r
weight W (undelegate r) = Democracy.undelegate W r
weight W clear_public_proposals = Democracy.clear_public_proposals W
weight W (unlock_remove r) = Democracy.unlock_remove W r
weight W (unlock_set r) = Democracy.unlock_set W r
weight W (remove_vote r) = Democracy.remove_vote W r
weight W (remove_other_vote r) = Democracy.remove_other_vote W r
weight W set_external_metadata = Democracy.set_external_metadata W
weight W clear_external_metadata = Democracy.clear_external_metadata W
weight W set_proposal_metadata = Democracy.set_proposal_metadata W
weight W clear_proposal_metadata = Democracy.clear_proposal_metadata W
weight W set_referendum_metadata = Democracy.set_referendum_metadata W
weight W clear_referendum_metadata = Democracy.clear_referendum_metadata W

-- "The range of component ... is ..."
abbrev pub InRange : Call → Type 0
InRange (on_initialize_base r) = (r ≤ 99)
InRange (on_initialize_base_with_launch_period r) = (r ≤ 99)
InRange (delegate r) = (r ≤ 99)
InRange (undelegate r) = (r ≤ 99)
InRange (unlock_remove r) = (r ≤ 99)
InRange (unlock_set r) = (r ≤ 99)
InRange (remove_vote r) = (1 ≤ r) × (r ≤ 100)
InRange (remove_other_vote r) = (1 ≤ r) × (r ≤ 100)
InRange _ = Unit {0}

-- "Estimated: ...", the size of the proof in bytes.
abbrev pub estimated : Call → ℕ
estimated propose = 18_187
estimated second = 6695
estimated vote_new = 7260
estimated vote_existing = 7260
estimated emergency_cancel = 3666
estimated blacklist = 18_187
estimated external_propose = 6703
estimated external_propose_majority = 0
estimated external_propose_default = 0
estimated fast_track = 3518
estimated veto_external = 6703
estimated cancel_proposal = 18_187
estimated cancel_referendum = 3518
estimated (on_initialize_base r) = 1489 + r * 2676
estimated (on_initialize_base_with_launch_period r) = 18_187 + r * 2676
estimated (delegate r) = 19_800 + r * 2676
estimated (undelegate r) = 13_530 + r * 2676
estimated clear_public_proposals = 0
estimated (unlock_remove _) = 7260
estimated (unlock_set _) = 7260
estimated (remove_vote _) = 7260
estimated (remove_other_vote _) = 7260
estimated set_external_metadata = 3556
estimated clear_external_metadata = 3518
estimated set_proposal_metadata = 18_187
estimated clear_proposal_metadata = 18_187
estimated set_referendum_metadata = 3556
estimated clear_referendum_metadata = 3666

-- "Storage: ... (r:... w:...)", added up.
abbrev pub storage : Call → ℕ × ℕ
storage propose = (3, 3)
storage second = (1, 1)
storage vote_new = (4, 3)
storage vote_existing = (4, 3)
storage emergency_cancel = (3, 3)
storage blacklist = (9, 8)
storage external_propose = (2, 1)
storage external_propose_majority = (0, 1)
storage external_propose_default = (0, 1)
storage fast_track = (3, 5)
storage veto_external = (3, 3)
storage cancel_proposal = (5, 5)
storage cancel_referendum = (1, 2)
storage (on_initialize_base _) = (101, 1)
storage (on_initialize_base_with_launch_period _) = (104, 1)
storage (delegate _) = (104, 103)
storage (undelegate _) = (101, 101)
storage clear_public_proposals = (0, 1)
storage (unlock_remove _) = (4, 3)
storage (unlock_set _) = (4, 3)
storage (remove_vote _) = (2, 2)
storage (remove_other_vote _) = (2, 2)
storage set_external_metadata = (2, 1)
storage clear_external_metadata = (2, 1)
storage set_proposal_metadata = (2, 1)
storage clear_proposal_metadata = (2, 1)
storage set_referendum_metadata = (1, 1)
storage clear_referendum_metadata = (2, 1)

-- The component at which the accesses were counted, where they depend on one.
abbrev pub IsCounted : Call → Type 0
IsCounted (on_initialize_base r) = r ≡ 99
IsCounted (on_initialize_base_with_launch_period r) = r ≡ 99
IsCounted (delegate r) = r ≡ 99
IsCounted (undelegate r) = r ≡ 99
IsCounted _ = Unit {0}

pub estimated-le : (c : Call) → InRange c → estimated c ≤ 2_621_440
estimated-le propose h = omega arith
estimated-le _ h = omega arith

module _ (W : Weights) ⦃D : AreDocumented W⦄ where
  -- In the documented ranges the proof size is the documented estimate: nothing saturates.
  pub proof_size-weight : (c : Call) → InRange c → W.proof_size (weight W c) ≡ estimated c
  unfolding weight
  proof_size-weight propose h = simp weight_laws (omega (arith, saturate_of_le))
  proof_size-weight _ h = simp weight_laws (omega (arith, saturate_of_le))

  -- In the documented ranges, with storage as fast as documented, the execution takes at most a
  -- quarter of a second.
  pub ref_time-weight-le :
      D.read ≤ 25_000_000
      → D.write ≤ 100_000_000
      → (c : Call) → InRange c
      → W.ref_time (weight W c) ≤ 250_000_000_000
  unfolding weight
  ref_time-weight-le fast quick (on_initialize_base r) h =
      simp weight_laws (omega (arith, saturate-le, mul-le-mul fast (u64_saturating_mul-le 1 r)))
  ref_time-weight-le fast quick (on_initialize_base_with_launch_period r) h =
      simp weight_laws (omega (arith, saturate-le, mul-le-mul fast (u64_saturating_mul-le 1 r)))
  ref_time-weight-le fast quick (delegate r) h = simp weight_laws (
      omega (
        arith,
        saturate-le,
        mul-le-mul fast (u64_saturating_mul-le 1 r),
        mul-le-mul quick (u64_saturating_mul-le 1 r),
      ))
  ref_time-weight-le fast quick (undelegate r) h = simp weight_laws (
      omega (
        arith,
        saturate-le,
        mul-le-mul fast (u64_saturating_mul-le 1 r),
        mul-le-mul quick (u64_saturating_mul-le 1 r),
      ))
  ref_time-weight-le fast quick propose h = simp weight_laws (omega (arith, saturate-le))
  ref_time-weight-le fast quick _ h = simp weight_laws (omega (arith, saturate-le))

-- At the counted component the weight charges the documented accesses, no more and no fewer.
pub weight-counting : (c : Call) → IsCounted c → weight counting c ≡ storage c
unfolding weight u64_saturating_mul
weight-counting (on_initialize_base r) h = rw h (ground arith)
weight-counting (on_initialize_base_with_launch_period r) h = rw h (ground arith)
weight-counting (delegate r) h = rw h (ground arith)
weight-counting (undelegate r) h = rw h (ground arith)
weight-counting propose h = ground arith
weight-counting _ h = ground arith
