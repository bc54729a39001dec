-- ===== src/Weights/EnclaveBridge.antt =====
-- The weight functions of `pallet_enclave_bridge`
-- (polkadot-parachains/integritee-runtime/src/weights/pallet_enclave_bridge.rs).
pub mod Laws
pub mod Storage
use parachain.Base.{ℕ}
use parachain.Weights.Interface.{Weights, u64_saturating_mul}

module _ (W : Weights) where
  open W use {Weight, from_parts, saturating_add, saturating_mul, reads, writes}

  infixl 65 ◌⊕◌
  abbrev ◌⊕◌ : Weight → Weight → Weight
  a ⊕ b = saturating_add a b

  unfoldable pub invoke : Weight
  invoke = from_parts 16_507_000 0 ⊕ from_parts 0 0

  unfoldable pub confirm_processed_parentchain_block : Weight
  confirm_processed_parentchain_block =
      from_parts 37_521_000 0 ⊕ from_parts 0 3873 ⊕ reads 3 ⊕ writes 1

  unfoldable pub shield_funds : Weight
  shield_funds = from_parts 90_452_000 0 ⊕ from_parts 0 3593 ⊕ reads 1 ⊕ writes 1

  unfoldable pub unshield_funds : Weight
  unshield_funds = from_parts 122_273_000 0 ⊕ from_parts 0 6196 ⊕ reads 6 ⊕ writes 4

  unfoldable pub publish_hash : ℕ → ℕ → Weight
  publish_hash _ t =
      from_parts 39_366_456 0
      ⊕ from_parts 0 3873
      ⊕ saturating_mul (from_parts 1_722_781 0) t
      ⊕ reads 3
      ⊕ reads (u64_saturating_mul 1 t)
      ⊕ writes 2
      ⊕ writes (u64_saturating_mul 1 t)
      ⊕ saturating_mul (from_parts 0 2475) t

  unfoldable pub update_shard_config : Weight
  update_shard_config = from_parts 28_568_000 0 ⊕ from_parts 0 3986 ⊕ reads 3 ⊕ writes 2
