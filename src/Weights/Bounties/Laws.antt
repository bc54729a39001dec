-- ===== src/Weights/Bounties/Laws.antt =====
-- The components of the weight functions of `pallet_bounties`, what their source documents of
-- each, and what they charge
-- (polkadot-parachains/integritee-runtime/src/weights/pallet_bounties.rs).
use parachain.Base.{ℕ, ◌+◌, ◌*◌, ◌≤◌, ◌≡◌, arith}
use native.Mathlib.Nat.{mul-le-mul}
use parachain.Weights.Interface.{Weights, u64_saturating_mul, counting}
use parachain.Weights.Interface.Laws.{
  AreDocumented, saturate-le, saturate_of_le, u64_saturating_mul-le, weight_laws,
}
use parachain.Weights.Bounties

-- The functions, with their components.
pub data Call : Type 0 where
  propose_bounty : ℕ → Call
  approve_bounty : Call
  propose_curator : Call
  unassign_curator : Call
  accept_curator : Call
  award_bounty : Call
  claim_bounty : Call
  close_bounty_proposed : Call
  close_bounty_active : Call
  extend_bounty_expiry : Call
  spend_funds : ℕ → Call

unfoldable pub weight : (W : Weights) → Call → W.Weight
unfolding Bounties.propose_bounty Bounties.approve_bounty Bounties.propose_curator
    Bounties.unassign_curator Bounties.accept_curator Bounties.award_bounty Bounties.claim_bounty
    Bounties.close_bounty_proposed Bounties.close_bounty_active Bounties.extend_bounty_expiry
    Bounties.spend_funds
weight W (propose_bounty d) = Bounties.propose_bounty W d
weight W approve_bounty = Bounties.approve_bounty W
weight W propose_curator = Bounties.propose_curator W
weight W unassign_curator = Bounties.unassign_curator W
weight W accept_curator = Bounties.accept_curator W
weight W award_bounty = Bounties.award_bounty W
weight W claim_bounty = Bounties.claim_bounty W
weight W close_bounty_proposed = Bounties.close_bounty_proposed W
weight W close_bounty_active = Bounties.close_bounty_active W
weight W extend_bounty_expiry = Bounties.extend_bounty_expiry W
weight W (spend_funds b) = Bounties.spend_funds W b

-- "The range of component ... is ..."
abbrev pub InRange : Call → Type 0
InRange (propose_bounty d) = (d ≤ 16_384)
InRange (spend_funds b) = (b ≤ 100)
InRange _ = Unit {0}

-- "Estimated: ...", the size of the proof in bytes.
abbrev pub estimated : Call → ℕ
estimated (propose_bounty _) = 3593
estimated approve_bounty = 3642
estimated propose_curator = 3642
estimated unassign_curator = 3642
estimated accept_curator = 3642
estimated award_bounty = 3642
estimated claim_bounty = 8799
estimated close_bounty_proposed = 3642
estimated close_bounty_active = 6196
estimated extend_bounty_expiry = 3642
estimated (spend_funds b) = 1887 + b * 5206

-- "Storage: ... (r:... w:...)", added up.
abbrev pub storage : Call → ℕ × ℕ
storage (propose_bounty _) = (2, 4)
storage approve_bounty = (2, 2)
storage propose_curator = (1, 1)
storage unassign_curator = (2, 2)
storage accept_curator = (2, 2)
storage award_bounty = (2, 1)
storage claim_bounty = (5, 6)
storage close_bounty_proposed = (3, 3)
storage close_bounty_active = (4, 4)
storage extend_bounty_expiry = (1, 1)
storage (spend_funds _) = (301, 301)

-- The component at which the accesses were counted, where they depend on one.
abbrev pub IsCounted : Call → Type 0
IsCounted (spend_funds b) = b ≡ 100
IsCounted _ = Unit {0}

pub estimated-le : (c : Call) → InRange c → estimated c ≤ 2_621_440
estimated-le (propose_bounty d) h = omega arith
estimated-le _ h = omega arith

module _ (W : Weights) ⦃D : AreDocumented W⦄ where
  -- In the documented ranges the proof size is the documented estimate: nothing saturates.
  pub proof_size-weight : (c : Call) → InRange c → W.proof_size (weight W c) ≡ estimated c
  unfolding weight
  proof_size-weight (propose_bounty d) h = simp weight_laws (omega (arith, saturate_of_le))
  proof_size-weight _ h = simp weight_laws (omega (arith, saturate_of_le))

  -- In the documented ranges, with storage as fast as documented, the execution takes at most a
  -- quarter of a second.
  pub ref_time-weight-le :
      D.read ≤ 25_000_000
      → D.write ≤ 100_000_000
      → (c : Call) → InRange c
      → W.ref_time (weight W c) ≤ 250_000_000_000
  unfolding weight
  ref_time-weight-le fast quick (spend_funds b) h = simp weight_laws (
      omega (
        arith,
        saturate-le,
        mul-le-mul fast (u64_saturating_mul-le 3 b),
        mul-le-mul quick (u64_saturating_mul-le 3 b),
      ))
  ref_time-weight-le fast quick (propose_bounty d) h = simp weight_laws (omega (arith, saturate-le))
  ref_time-weight-le fast quick _ h = simp weight_laws (omega (arith, saturate-le))

-- At the counted component the weight charges the documented accesses, no more and no fewer.
pub weight-counting : (c : Call) → IsCounted c → weight counting c ≡ storage c
unfolding weight u64_saturating_mul
weight-counting (spend_funds b) h = rw h (ground arith)
weight-counting (propose_bounty d) h = ground arith
weight-counting _ h = ground arith
