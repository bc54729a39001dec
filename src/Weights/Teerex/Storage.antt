-- ===== src/Weights/Teerex/Storage.antt =====
-- The storage accesses and proof sizes that the comments of
-- polkadot-parachains/integritee-runtime/src/weights/pallet_teerex.rs document.
use parachain.Base.{◌≤◌, ◌≡◌, Bool, true, List, [], ◌∷◌, arith}
use parachain.Weights.Storage.{Access, bounded, skipped, total, is_bounded, proof_of}
use parachain.Weights.Teerex.Laws as Calls

abbrev register_sgx_enclave_accesses : List Access
register_sgx_enclave_accesses =
    bounded "Timestamp Now" 1 0 8 503
    ∷ skipped "Teerex SgxQuotingEnclaveRegistry" 1 0
    ∷ skipped "Teerex SgxTcbInfo" 1 0
    ∷ skipped "Teerex SgxAllowDebugMode" 1 0
    ∷ skipped "Teerex SovereignEnclaves" 0 1
    ∷ []

abbrev register_quoting_enclave_accesses : List Access
register_quoting_enclave_accesses =
    bounded "Timestamp Now" 1 0 8 503 ∷ skipped "Teerex SgxQuotingEnclaveRegistry" 0 1 ∷ []

abbrev register_tcb_info_accesses : List Access
register_tcb_info_accesses =
    bounded "Timestamp Now" 1 0 8 503 ∷ skipped "Teerex SgxTcbInfo" 0 1 ∷ []

abbrev unregister_sovereign_enclave_accesses : List Access
unregister_sovereign_enclave_accesses =
    skipped "Teerex SovereignEnclaves" 1 1 ∷ bounded "Timestamp Now" 1 0 8 503 ∷ []

abbrev unregister_proxied_enclave_accesses : List Access
unregister_proxied_enclave_accesses =
    skipped "Teerex ProxiedEnclaves" 1 1 ∷ bounded "Timestamp Now" 1 0 8 503 ∷ []

abbrev set_security_flags_accesses : List Access
set_security_flags_accesses =
    skipped "Teerex SgxAllowDebugMode" 0 1 ∷ skipped "Teerex AllowSkippingAttestation" 0 1 ∷ []

abbrev pub accesses : Calls.Call → List Access
accesses Calls.register_sgx_enclave = register_sgx_enclave_accesses
accesses Calls.register_quoting_enclave = register_quoting_enclave_accesses
accesses Calls.register_tcb_info = register_tcb_info_accesses
accesses Calls.unregister_sovereign_enclave = unregister_sovereign_enclave_accesses
accesses Calls.unregister_proxied_enclave = unregister_proxied_enclave_accesses
accesses Calls.set_security_flags = set_security_flags_accesses

-- Where the component, if any, is the one that the accesses were counted at.
abbrev pub IsAtTop : Calls.Call → Type 0
IsAtTop c = Calls.IsCounted c

-- A function whose documented estimate does not depend on a component.
abbrev pub is_fixed : Calls.Call → Bool
is_fixed _ = true

pub total-accesses : (c : Calls.Call) → total (accesses c) ≡ Calls.storage c
total-accesses c = ground arith

pub proof_of-accesses-le :
    (c : Calls.Call)
    → is_bounded (accesses c) ≡ true
    → IsAtTop c
    → proof_of (accesses c) ≤ Calls.estimated c
proof_of-accesses-le c b h = ground arith

pub proof_of-accesses :
    (c : Calls.Call)
    → is_bounded (accesses c) ≡ true
    → is_fixed c ≡ true
    → proof_of (accesses c) ≡ Calls.estimated c
proof_of-accesses c b e = ground arith
