-- ===== src/Weights/Teerex/Laws.antt =====
-- The components of the weight functions of `pallet_teerex`, what their source documents of each,
-- and what they charge (polkadot-parachains/integritee-runtime/src/weights/pallet_teerex.rs).
use parachain.Base.{ℕ, ◌≤◌, ◌≡◌, arith}
use parachain.Weights.Interface.{Weights, counting}
use parachain.Weights.Interface.Laws.{AreDocumented, saturate-le, saturate_of_le, weight_laws}
use parachain.Weights.Teerex

-- The functions, with their components.
pub data Call : Type 0 where
  register_sgx_enclave : Call
  register_quoting_enclave : Call
  register_tcb_info : Call
  unregister_sovereign_enclave : Call
  unregister_proxied_enclave : Call
  set_security_flags : Call

unfoldable pub weight : (W : Weights) → Call → W.Weight
unfolding Teerex.register_sgx_enclave Teerex.register_quoting_enclave Teerex.register_tcb_info
    Teerex.unregister_sovereign_enclave Teerex.unregister_proxied_enclave Teerex.set_security_flags
weight W register_sgx_enclave = Teerex.register_sgx_enclave W
weight W register_quoting_enclave = Teerex.register_quoting_enclave W
weight W register_tcb_info = Teerex.register_tcb_info W
weight W unregister_sovereign_enclave = Teerex.unregister_sovereign_enclave W
weight W unregister_proxied_enclave = Teerex.unregister_proxied_enclave W
weight W set_security_flags = Teerex.set_security_flags W

-- "The range of component ... is ..."
abbrev pub InRange : Call → Type 0
InRange _ = Unit {0}

-- "Estimated: ...", the size of the proof in bytes.
abbrev pub estimated : Call → ℕ
estimated register_sgx_enclave = 3916
estimated register_quoting_enclave = 1493
estimated register_tcb_info = 1493
estimated unregister_sovereign_enclave = 3996
estimated unregister_proxied_enclave = 4098
estimated set_security_flags = 0

-- "Storage: ... (r:... w:...)", added up.
abbrev pub storage : Call → ℕ × ℕ
storage register_sgx_enclave = (4, 1)
storage register_quoting_enclave = (1, 1)
storage register_tcb_info = (1, 1)
storage unregister_sovereign_enclave = (2, 1)
storage unregister_proxied_enclave = (2, 1)
storage set_security_flags = (0, 2)

-- The component at which the accesses were counted, where they depend on one.
abbrev pub IsCounted : Call → Type 0
IsCounted _ = Unit {0}

pub estimated-le : (c : Call) → InRange c → estimated c ≤ 2_621_440
estimated-le register_sgx_enclave h = omega arith
estimated-le _ h = omega arith

module _ (W : Weights) ⦃D : AreDocumented W⦄ where
  -- In the documented ranges the proof size is the documented estimate: nothing saturates.
  pub proof_size-weight : (c : Call) → InRange c → W.proof_size (weight W c) ≡ estimated c
  unfolding weight
  proof_size-weight register_sgx_enclave h = simp weight_laws (omega (arith, saturate_of_le))
  proof_size-weight _ h = simp weight_laws (omega (arith, saturate_of_le))

  -- In the documented ranges, with storage as fast as documented, the execution takes at most a
  -- quarter of a second.
  pub ref_time-weight-le :
      D.read ≤ 25_000_000
      → D.write ≤ 100_000_000
      → (c : Call) → InRange c
      → W.ref_time (weight W c) ≤ 250_000_000_000
  unfolding weight
  ref_time-weight-le fast quick register_sgx_enclave h =
      simp weight_laws (omega (arith, saturate-le))
  ref_time-weight-le fast quick _ h = simp weight_laws (omega (arith, saturate-le))

-- At the counted component the weight charges the documented accesses, no more and no fewer.
pub weight-counting : (c : Call) → IsCounted c → weight counting c ≡ storage c
unfolding weight
weight-counting register_sgx_enclave h = ground arith
weight-counting _ h = ground arith
