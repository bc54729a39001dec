-- ===== src/Weights/Teerex.antt =====
-- The weight functions of `pallet_teerex`
-- (polkadot-parachains/integritee-runtime/src/weights/pallet_teerex.rs).
pub mod Laws
pub mod Storage
use parachain.Base.{ℕ}
use parachain.Weights.Interface.{Weights}

module _ (W : Weights) where
  open W use {Weight, from_parts, saturating_add, reads, writes}

  infixl 65 ◌⊕◌
  abbrev ◌⊕◌ : Weight → Weight → Weight
  a ⊕ b = saturating_add a b

  unfoldable pub register_sgx_enclave : Weight
  register_sgx_enclave = from_parts 3_057_351_000 0 ⊕ from_parts 0 3916 ⊕ reads 4 ⊕ writes 1

  unfoldable pub register_quoting_enclave : Weight
  register_quoting_enclave = from_parts 1_363_262_000 0 ⊕ from_parts 0 1493 ⊕ reads 1 ⊕ writes 1

  unfoldable pub register_tcb_info : Weight
  register_tcb_info = from_parts 1_421_038_000 0 ⊕ from_parts 0 1493 ⊕ reads 1 ⊕ writes 1

  unfoldable pub unregister_sovereign_enclave : Weight
  unregister_sovereign_enclave = from_parts 19_953_000 0 ⊕ from_parts 0 3996 ⊕ reads 2 ⊕ writes 1

  unfoldable pub unregister_proxied_enclave : Weight
  unregister_proxied_enclave = from_parts 25_704_000 0 ⊕ from_parts 0 4098 ⊕ reads 2 ⊕ writes 1

  unfoldable pub set_security_flags : Weight
  set_security_flags = from_parts 9_973_000 0 ⊕ from_parts 0 0 ⊕ writes 2
