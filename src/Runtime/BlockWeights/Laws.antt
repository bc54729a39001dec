-- ===== src/Runtime/BlockWeights/Laws.antt =====
-- How a block's weight is divided.
use mathlib.Core.Option.{some-injective}
use parachain.Base.{ap, ℕ, ◌+◌, ◌*◌, ◌/◌, ◌≤◌, ◌≡◌, refl, some, arith}
use parachain.Xcm.Barrier.{Weight}
use parachain.Runtime.BlockWeights.{
  maximum_block_weight, reserved_xcmp_weight, reserved_dmp_weight, runtime_block_weights,
}

-- What is documented of a `Perbill`: of a value it takes no more than the value.
abbrev pub TakesPart : (ℕ → ℕ → ℕ) → Type 0
TakesPart mul = (parts value : ℕ) → parts ≤ 1_000_000_000 → mul parts value ≤ value

-- And where the product with a value is whole, it gives exactly that.
abbrev pub IsExact : (ℕ → ℕ → ℕ) → Type 0
IsExact mul = (parts value part : ℕ) → parts * value ≡ part * 1_000_000_000 → mul parts value ≡ part

-- Of a block normal calls and the space reserved for operational ones make up the whole, so that the
-- reservation never goes below 0; operational calls may fill the block; and the messages of both
-- kinds together are given at most half of it, of the execution time and of the proof size.
pub runtime_block_weights-add :
    (second pov : ℕ) (mul : ℕ → ℕ → ℕ)
    → TakesPart mul
    → let weights = runtime_block_weights second pov mul in
      let whole = maximum_block_weight second pov in
      (normal reserved : Weight)
      → weights.normal.max_total ≡ some normal
      → weights.operational.reserved ≡ some reserved
      → (normal.ref_time + reserved.ref_time ≡ whole.ref_time)
        × (normal.proof_size + reserved.proof_size ≡ whole.proof_size)
        × (weights.operational.max_total ≡ some whole)
        × (2
              * ((reserved_xcmp_weight second pov).ref_time
                  + (reserved_dmp_weight second pov).ref_time)
            ≤ whole.ref_time)
        × (2
              * ((reserved_xcmp_weight second pov).proof_size
                  + (reserved_dmp_weight second pov).proof_size)
            ≤ whole.proof_size)
unfolding runtime_block_weights
runtime_block_weights-add second pov mul takes normal reserved hn hr =
    let n = some-injective _ _ hn in
    let r = some-injective _ _ hr in
    let few = takes 750_000_000 (second / 2) (omega arith) in
    let small = takes 750_000_000 pov (omega arith) in
    (
      omega (arith, ap (λ w. w.ref_time) n, ap (λ w. w.ref_time) r, few),
      omega (arith, ap (λ w. w.proof_size) n, ap (λ w. w.proof_size) r, small),
      refl,
      omega arith,
      omega arith,
    )
