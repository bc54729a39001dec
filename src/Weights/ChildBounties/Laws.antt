-- ===== src/Weights/ChildBounties/Laws.antt =====
-- The components of the weight functions of `pallet_child_bounties`, what their source documents
-- of each, and what they charge
-- (polkadot-parachains/integritee-runtime/src/weights/pallet_child_bounties.rs).
use parachain.Base.{ℕ, ◌≤◌, ◌≡◌, arith}
use parachain.Weights.Interface.{Weights, counting}
use parachain.Weights.Interface.Laws.{AreDocumented, saturate-le, saturate_of_le, weight_laws}
use parachain.Weights.ChildBounties

-- The functions, with their components.
pub data Call : Type 0 where
  add_child_bounty : ℕ → Call
  propose_curator : Call
  accept_curator : Call
  unassign_curator : Call
  award_child_bounty : Call
  claim_child_bounty : Call
  close_child_bounty_added : Call
  close_child_bounty_active : Call

unfoldable pub weight : (W : Weights) → Call → W.Weight
unfolding ChildBounties.add_child_bounty ChildBounties.propose_curator ChildBounties.accept_curator
    ChildBounties.unassign_curator ChildBounties.award_child_bounty ChildBounties.claim_child_bounty
    ChildBounties.close_child_bounty_added ChildBounties.close_child_bounty_active
weight W (add_child_bounty d) = ChildBounties.add_child_bounty W d
weight W propose_curator = ChildBounties.propose_curator W
weight W accept_curator = ChildBounties.accept_curator W
weight W unassign_curator = ChildBounties.unassign_curator W
weight W award_child_bounty = ChildBounties.award_child_bounty W
weight W claim_child_bounty = ChildBounties.claim_child_bounty W
weight W close_child_bounty_added = ChildBounties.close_child_bounty_added W
weight W close_child_bounty_active = ChildBounties.close_child_bounty_active W

-- "The range of component ... is ..."
abbrev pub InRange : Call → Type 0
InRange (add_child_bounty d) = (d ≤ 16_384)
InRange _ = Unit {0}

-- "Estimated: ...", the size of the proof in bytes.
abbrev pub estimated : Call → ℕ
estimated (add_child_bounty _) = 6196
estimated propose_curator = 3642
estimated accept_curator = 3642
estimated unassign_curator = 3642
estimated award_child_bounty = 3642
estimated claim_child_bounty = 8799
estimated close_child_bounty_added = 6196
estimated close_child_bounty_active = 8799

-- "Storage: ... (r:... w:...)", added up.
abbrev pub storage : Call → ℕ × ℕ
storage (add_child_bounty _) = (5, 6)
storage propose_curator = (3, 2)
storage accept_curator = (3, 2)
storage unassign_curator = (3, 2)
storage award_child_bounty = (2, 1)
storage claim_child_bounty = (5, 6)
storage close_child_bounty_added = (6, 6)
storage close_child_bounty_active = (7, 7)

-- The component at which the accesses were counted, where they depend on one.
abbrev pub IsCounted : Call → Type 0
IsCounted _ = Unit {0}

pub estimated-le : (c : Call) → InRange c → estimated c ≤ 2_621_440
estimated-le (add_child_bounty d) h = omega arith
estimated-le _ h = omega arith

module _ (W : Weights) ⦃D : AreDocumented W⦄ where
  -- In the documented ranges the proof size is the documented estimate: nothing saturates.
  pub proof_size-weight : (c : Call) → InRange c → W.proof_size (weight W c) ≡ estimated c
  unfolding weight
  proof_size-weight (add_child_bounty d) h = simp weight_laws (omega (arith, saturate_of_le))
  proof_size-weight _ h = simp weight_laws (omega (arith, saturate_of_le))

  -- In the documented ranges, with storage as fast as documented, the execution takes at most a
  -- quarter of a second.
  pub ref_time-weight-le :
      D.read ≤ 25_000_000
      → D.write ≤ 100_000_000
      → (c : Call) → InRange c
      → W.ref_time (weight W c) ≤ 250_000_000_000
  unfolding weight
  ref_time-weight-le fast quick (add_child_bounty d) h =
      simp weight_laws (omega (arith, saturate-le))
  ref_time-weight-le fast quick _ h = simp weight_laws (omega (arith, saturate-le))

-- At the counted component the weight charges the documented accesses, no more and no fewer.
pub weight-counting : (c : Call) → IsCounted c → weight counting c ≡ storage c
unfolding weight
weight-counting (add_child_bounty d) h = ground arith
weight-counting _ h = ground arith
