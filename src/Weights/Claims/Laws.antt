-- ===== src/Weights/Claims/Laws.antt =====
-- The components of the weight functions of `pallet_claims`, what their source documents of each,
-- and what they charge (polkadot-parachains/integritee-runtime/src/weights/pallet_claims.rs).
use parachain.Base.{ℕ, ◌≤◌, ◌≡◌, arith}
use parachain.Weights.Interface.{Weights, counting}
use parachain.Weights.Interface.Laws.{AreDocumented, saturate-le, saturate_of_le, weight_laws}
use parachain.Weights.Claims

-- The functions, with their components.
pub data Call : Type 0 where
  claim : Call
  mint_claim : Call
  claim_attest : Call
  attest : Call
  move_claim : Call

unfoldable pub weight : (W : Weights) → Call → W.Weight
unfolding Claims.claim Claims.mint_claim Claims.claim_attest Claims.attest Claims.move_claim
weight W claim = Claims.claim W
weight W mint_claim = Claims.mint_claim W
weight W claim_attest = Claims.claim_attest W
weight W attest = Claims.attest W
weight W move_claim = Claims.move_claim W

-- "The range of component ... is ..."
abbrev pub InRange : Call → Type 0
InRange _ = Unit {0}

-- "Estimated: ...", the size of the proof in bytes.
abbrev pub estimated : Call → ℕ
estimated claim = 4764
estimated mint_claim = 1630
estimated claim_attest = 4764
estimated attest = 4764
estimated move_claim = 3834

-- "Storage: ... (r:... w:...)", added up.
abbrev pub storage : Call → ℕ × ℕ
storage claim = (8, 6)
storage mint_claim = (1, 4)
storage claim_attest = (8, 6)
storage attest = (9, 7)
storage move_claim = (4, 7)

-- The component at which the accesses were counted, where they depend on one.
abbrev pub IsCounted : Call → Type 0
IsCounted _ = Unit {0}

pub estimated-le : (c : Call) → InRange c → estimated c ≤ 2_621_440
estimated-le claim h = omega arith
estimated-le _ h = omega arith

module _ (W : Weights) ⦃D : AreDocumented W⦄ where
  -- In the documented ranges the proof size is the documented estimate: nothing saturates.
  pub proof_size-weight : (c : Call) → InRange c → W.proof_size (weight W c) ≡ estimated c
  unfolding weight
  proof_size-weight claim h = simp weight_laws (omega (arith, saturate_of_le))
  proof_size-weight _ h = simp weight_laws (omega (arith, saturate_of_le))

  -- In the documented ranges, with storage as fast as documented, the execution takes at most a
  -- quarter of a second.
  pub ref_time-weight-le :
      D.read ≤ 25_000_000
      → D.write ≤ 100_000_000
      → (c : Call) → InRange c
      → W.ref_time (weight W c) ≤ 250_000_000_000
  unfolding weight
  ref_time-weight-le fast quick claim h = simp weight_laws (omega (arith, saturate-le))
  ref_time-weight-le fast quick _ h = simp weight_laws (omega (arith, saturate-le))

-- At the counted component the weight charges the documented accesses, no more and no fewer.
pub weight-counting : (c : Call) → IsCounted c → weight counting c ≡ storage c
unfolding weight
weight-counting claim h = ground arith
weight-counting _ h = ground arith
