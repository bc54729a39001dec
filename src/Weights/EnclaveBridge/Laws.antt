-- ===== src/Weights/EnclaveBridge/Laws.antt =====
-- The components of the weight functions of `pallet_enclave_bridge`, what their source documents
-- of each, and what they charge
-- (polkadot-parachains/integritee-runtime/src/weights/pallet_enclave_bridge.rs).
use parachain.Base.{ℕ, ◌+◌, ◌*◌, ◌≤◌, ◌≡◌, arith}
use native.Mathlib.Nat.{mul-le-mul}
use parachain.Weights.Interface.{Weights, u64_saturating_mul, counting}
use parachain.Weights.Interface.Laws.{
  AreDocumented, saturate-le, saturate_of_le, u64_saturating_mul-le, weight_laws,
}
use parachain.Weights.EnclaveBridge

-- The functions, with their components.
pub data Call : Type 0 where
  invoke : Call
  confirm_processed_parentchain_block : Call
  shield_funds : Call
  unshield_funds : Call
  publish_hash : ℕ → ℕ → Call
  update_shard_config : Call

unfoldable pub weight : (W : Weights) → Call → W.Weight
unfolding EnclaveBridge.invoke EnclaveBridge.confirm_processed_parentchain_block
    EnclaveBridge.shield_funds EnclaveBridge.unshield_funds EnclaveBridge.publish_hash
    EnclaveBridge.update_shard_config
weight W invoke = EnclaveBridge.invoke W
weight W confirm_processed_parentchain_block = EnclaveBridge.confirm_processed_parentchain_block W
weight W shield_funds = EnclaveBridge.shield_funds W
weight W unshield_funds = EnclaveBridge.unshield_funds W
weight W (publish_hash l t) = EnclaveBridge.publish_hash W l t
weight W update_shard_config = EnclaveBridge.update_shard_config W

-- "The range of component ... is ..."
abbrev pub InRange : Call → Type 0
InRange (publish_hash l t) = (l ≤ 100) × (1 ≤ t) × (t ≤ 5)
InRange _ = Unit {0}

-- "Estimated: ...", the size of the proof in bytes.
abbrev pub estimated : Call → ℕ
estimated invoke = 0
estimated confirm_processed_parentchain_block = 3873
estimated shield_funds = 3593
estimated unshield_funds = 6196
estimated (publish_hash _ t) = 3873 + t * 2475
estimated update_shard_config = 3986

-- "Storage: ... (r:... w:...)", added up.
abbrev pub storage : Call → ℕ × ℕ
storage invoke = (0, 0)
storage confirm_processed_parentchain_block = (3, 1)
storage shield_funds = (1, 1)
storage unshield_funds = (6, 4)
storage (publish_hash _ _) = (8, 7)
storage update_shard_config = (3, 2)

-- The component at which the accesses were counted, where they depend on one.
abbrev pub IsCounted : Call → Type 0
IsCounted (publish_hash _ t) = t ≡ 5
IsCounted _ = Unit {0}

pub estimated-le : (c : Call) → InRange c → estimated c ≤ 2_621_440
estimated-le invoke h = omega arith
estimated-le _ h = omega arith

module _ (W : Weights) ⦃D : AreDocumented W⦄ where
  -- In the documented ranges the proof size is the documented estimate: nothing saturates.
  pub proof_size-weight : (c : Call) → InRange c → W.proof_size (weight W c) ≡ estimated c
  unfolding weight
  proof_size-weight invoke h = simp weight_laws (omega (arith, saturate_of_le))
  proof_size-weight _ h = simp weight_laws (omega (arith, saturate_of_le))

  -- In the documented ranges, with storage as fast as documented, the execution takes at most a
  -- quarter of a second.
  pub ref_time-weight-le :
      D.read ≤ 25_000_000
      → D.write ≤ 100_000_000
      → (c : Call) → InRange c
      → W.ref_time (weight W c) ≤ 250_000_000_000
  unfolding weight
  ref_time-weight-le fast quick (publish_hash l t) h = simp weight_laws (
      omega (
        arith,
        saturate-le,
        mul-le-mul fast (u64_saturating_mul-le 1 t),
        mul-le-mul quick (u64_saturating_mul-le 1 t),
      ))
  ref_time-weight-le fast quick invoke h = simp weight_laws (omega (arith, saturate-le))
  ref_time-weight-le fast quick _ h = simp weight_laws (omega (arith, saturate-le))

-- At the counted component the weight charges the documented accesses, no more and no fewer.
pub weight-counting : (c : Call) → IsCounted c → weight counting c ≡ storage c
unfolding weight u64_saturating_mul
weight-counting (publish_hash l t) h = rw h (ground arith)
weight-counting invoke h = ground arith
weight-counting _ h = ground arith
