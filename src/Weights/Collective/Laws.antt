-- ===== src/Weights/Collective/Laws.antt =====
-- The components of the weight functions of `pallet_collective`, what their source documents of
-- each, and what they charge
-- (polkadot-parachains/integritee-runtime/src/weights/pallet_collective.rs).
use parachain.Base.{ℕ, ◌+◌, ◌*◌, ◌≤◌, ◌≡◌, arith}
use native.Mathlib.Nat.{mul-le-mul}
use parachain.Weights.Interface.{Weights, u64_saturating_mul, counting}
use parachain.Weights.Interface.Laws.{
  AreDocumented, saturate-le, saturate_of_le, u64_saturating_mul-le, weight_laws,
}
use parachain.Weights.Collective

-- The functions, with their components.
pub data Call : Type 0 where
  set_members : ℕ → ℕ → ℕ → Call
  execute : ℕ → ℕ → Call
  propose_execute : ℕ → ℕ → Call
  propose_proposed : ℕ → ℕ → ℕ → Call
  vote : ℕ → Call
  close_early_disapproved : ℕ → ℕ → Call
  close_early_approved : ℕ → ℕ → ℕ → Call
  close_disapproved : ℕ → ℕ → Call
  close_approved : ℕ → ℕ → ℕ → Call
  disapprove_proposal : ℕ → Call

unfoldable pub weight : (W : Weights) → Call → W.Weight
unfolding Collective.set_members Collective.execute Collective.propose_execute
    Collective.propose_proposed Collective.vote Collective.close_early_disapproved
    Collective.close_early_approved Collective.close_disapproved Collective.close_approved
    Collective.disapprove_proposal
weight W (set_members m n p) = Collective.set_members W m n p
weight W (execute b m) = Collective.execute W b m
weight W (propose_execute b m) = Collective.propose_execute W b m
weight W (propose_proposed b m p) = Collective.propose_proposed W b m p
weight W (vote m) = Collective.vote W m
weight W (close_early_disapproved m p) = Collective.close_early_disapproved W m p
weight W (close_early_approved b m p) = Collective.close_early_approved W b m p
weight W (close_disapproved m p) = Collective.close_disapproved W m p
weight W (close_approved b m p) = Collective.close_approved W b m p
weight W (disapprove_proposal p) = Collective.disapprove_proposal W p

-- "The range of component ... is ..."
abbrev pub InRange : Call → Type 0
InRange (set_members m n p) = (m ≤ 100) × (n ≤ 100) × (p ≤ 100)
InRange (execute b m) = (2 ≤ b) × (b ≤ 1024) × (1 ≤ m) × (m ≤ 100)
InRange (propose_execute b m) = (2 ≤ b) × (b ≤ 1024) × (1 ≤ m) × (m ≤ 100)
InRange (propose_proposed b m p) = (2 ≤ b) × (b ≤ 1024) × (2 ≤ m) × (m ≤ 100) × (1 ≤ p) × (p ≤ 100)
InRange (vote m) = (5 ≤ m) × (m ≤ 100)
InRange (close_early_disapproved m p) = (4 ≤ m) × (m ≤ 100) × (1 ≤ p) × (p ≤ 100)
InRange (close_early_approved b m p) =
    (2 ≤ b) × (b ≤ 1024) × (4 ≤ m) × (m ≤ 100) × (1 ≤ p) × (p ≤ 100)
InRange (close_disapproved m p) = (4 ≤ m) × (m ≤ 100) × (1 ≤ p) × (p ≤ 100)
InRange (close_approved b m p) = (2 ≤ b) × (b ≤ 1024) × (4 ≤ m) × (m ≤ 100) × (1 ≤ p) × (p ≤ 100)
InRange (disapprove_proposal p) = (1 ≤ p) × (p ≤ 100)

-- "Estimated: ...", the size of the proof in bytes.
abbrev pub estimated : Call → ℕ
estimated (set_members m _ p) = 15_728 + m * 1967 + p * 4332
estimated (execute _ m) = 1555 + m * 32
estimated (propose_execute _ m) = 3535 + m * 32
estimated (propose_proposed _ m p) = 3751 + m * 33 + p * 36
estimated (vote m) = 4272 + m * 64
estimated (close_early_disapproved m p) = 3842 + m * 65 + p * 36
estimated (close_early_approved b m p) = 4016 + b * 1 + m * 66 + p * 40
estimated (close_disapproved m p) = 3862 + m * 65 + p * 36
estimated (close_approved b m p) = 4036 + b * 1 + m * 66 + p * 40
estimated (disapprove_proposal p) = 1711 + p * 32

-- "Storage: ... (r:... w:...)", added up.
abbrev pub storage : Call → ℕ × ℕ
storage (set_members _ _ _) = (102, 102)
storage (execute _ _) = (1, 0)
storage (propose_execute _ _) = (2, 0)
storage (propose_proposed _ _ _) = (4, 4)
storage (vote _) = (2, 1)
storage (close_early_disapproved _ _) = (3, 3)
storage (close_early_approved _ _ _) = (4, 3)
storage (close_disapproved _ _) = (4, 3)
storage (close_approved _ _ _) = (5, 3)
storage (disapprove_proposal _) = (1, 3)

-- The component at which the accesses were counted, where they depend on one.
abbrev pub IsCounted : Call → Type 0
IsCounted (set_members _ _ p) = p ≡ 100
IsCounted _ = Unit {0}

pub estimated-le : (c : Call) → InRange c → estimated c ≤ 2_621_440
estimated-le (set_members m n p) h = omega arith
estimated-le _ h = omega arith

module _ (W : Weights) ⦃D : AreDocumented W⦄ where
  -- In the documented ranges the proof size is the documented estimate: nothing saturates.
  pub proof_size-weight : (c : Call) → InRange c → W.proof_size (weight W c) ≡ estimated c
  unfolding weight
  proof_size-weight (set_members m n p) h = simp weight_laws (omega (arith, saturate_of_le))
  proof_size-weight _ h = simp weight_laws (omega (arith, saturate_of_le))

  -- In the documented ranges, with storage as fast as documented, the execution takes at most a
  -- quarter of a second.
  pub ref_time-weight-le :
      D.read ≤ 25_000_000
      → D.write ≤ 100_000_000
      → (c : Call) → InRange c
      → W.ref_time (weight W c) ≤ 250_000_000_000
  unfolding weight
  ref_time-weight-le fast quick (set_members m n p) h = simp weight_laws (
      omega (
        arith,
        saturate-le,
        mul-le-mul fast (u64_saturating_mul-le 1 p),
        mul-le-mul quick (u64_saturating_mul-le 1 p),
      ))
  ref_time-weight-le fast quick (execute b m) h = simp weight_laws (omega (arith, saturate-le))
  ref_time-weight-le fast quick _ h = simp weight_laws (omega (arith, saturate-le))

-- At the counted component the weight charges the documented accesses, no more and no fewer.
pub weight-counting : (c : Call) → IsCounted c → weight counting c ≡ storage c
unfolding weight u64_saturating_mul
weight-counting (set_members m n p) h = rw h (ground arith)
weight-counting (execute b m) h = ground arith
weight-counting _ h = ground arith
