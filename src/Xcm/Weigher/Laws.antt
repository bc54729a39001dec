-- ===== src/Xcm/Weigher/Laws.antt =====
-- Which messages have room in the weight that a block reserves for messages of the relay chain.
use parachain.Base.{ℕ, ◌*◌, ◌≤◌, ◌≡◌, ◌↔◌, refl, Option, some, none, leb, if◌then◌else◌, arith}
use parachain.Xcm.Barrier.{Weight}
use parachain.Runtime.BlockWeights.{reserved_dmp_weight}
use parachain.Xcm.Weigher.{
  unit_weight_cost, max_instructions, shell_unit_weight_cost, shell_max_instructions, weigher,
  shell_weigher,
}

abbrev pub scaled : Weight → ℕ → Weight
scaled w n = record { ref_time = w.ref_time * n; proof_size = w.proof_size * n }

-- What is documented of `FixedWeightBounds`: a message is weighed if it has no more than the given
-- number of instructions, those of the programs it carries included, and each of them costs the
-- same. Where a message has a `Transact`, the weight that it asks for is added; such are left out.
pub record IsDocumented {Message : Type 0}
    (fixed_weight_bounds : Weight → ℕ → Message → Option Weight) : Type 1 where
  pub instructions : Message → ℕ
  pub HasNoTransact : Message → Type 0
  pub weight_of :
      (unit : Weight) (most : ℕ) (message : Message)
      → HasNoTransact message
      → fixed_weight_bounds unit most message ≡ (
          if leb (instructions message) most
          then some (scaled unit (instructions message))
          else none)

abbrev pub HasRoom : Weight → Option Weight → Type 0
HasRoom whole none = ⊥
HasRoom whole (some w) = (w.ref_time ≤ whole.ref_time) × (w.proof_size ≤ whole.proof_size)

module _ {Message : Type 0} (fixed_weight_bounds : Weight → ℕ → Message → Option Weight)
    (D : IsDocumented fixed_weight_bounds) where
  -- A message is weighed by both runtimes alike, and what it weighs has room in the quarter of a block
  -- that is reserved for messages of the relay chain exactly if it has at most ten instructions, a tenth
  -- of what `MaxInstructions` allows: the proof size gives out first.
  pub weigher-HasRoom_iff :
      {second pov : ℕ}
      → second ≡ 1_000_000_000_000
      → pov ≡ 5_242_880
      → (message : Message) → D.HasNoTransact message
      → (weigher fixed_weight_bounds message ≡ shell_weigher fixed_weight_bounds message)
        × (HasRoom (reserved_dmp_weight second pov) (weigher fixed_weight_bounds message)
            ↔ (D.instructions message ≤ 10))
  unfolding weigher shell_weigher unit_weight_cost shell_unit_weight_cost max_instructions
      shell_max_instructions
  weigher-HasRoom_iff s p message plain =
      (refl, rw (D.weight_of unit_weight_cost max_instructions message plain, s, p) (ground arith))
