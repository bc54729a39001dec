-- ===== src/Weights/Claims/Storage.antt =====
-- The storage accesses and proof sizes that the comments of
-- polkadot-parachains/integritee-runtime/src/weights/pallet_claims.rs document.
use parachain.Base.{◌≤◌, ◌≡◌, Bool, true, List, [], ◌∷◌, arith}
use parachain.Weights.Storage.{Access, bounded, skipped, total, is_bounded, proof_of}
use parachain.Weights.Claims.Laws as Calls

abbrev claim_accesses : List Access
claim_accesses =
    skipped "Claims Claims" 1 1
    ∷ skipped "Claims Signing" 1 1
    ∷ skipped "Claims Total" 1 1
    ∷ skipped "Claims Vesting" 1 1
    ∷ bounded "Vesting Vesting" 1 1 1057 3532
    ∷ bounded "System Account" 1 0 128 2603
    ∷ bounded "Balances Locks" 1 1 1299 3774
    ∷ bounded "Balances Freezes" 1 0 49 2524
    ∷ []

abbrev mint_claim_accesses : List Access
mint_claim_accesses =
    skipped "Claims Total" 1 1
    ∷ skipped "Claims Vesting" 0 1
    ∷ skipped "Claims Claims" 0 1
    ∷ skipped "Claims Signing" 0 1
    ∷ []

abbrev claim_attest_accesses : List Access
claim_attest_accesses =
    skipped "Claims Claims" 1 1
    ∷ skipped "Claims Signing" 1 1
    ∷ skipped "Claims Total" 1 1
    ∷ skipped "Claims Vesting" 1 1
    ∷ bounded "Vesting Vesting" 1 1 1057 3532
    ∷ bounded "System Account" 1 0 128 2603
    ∷ bounded "Balances Locks" 1 1 1299 3774
    ∷ bounded "Balances Freezes" 1 0 49 2524
    ∷ []

abbrev attest_accesses : List Access
attest_accesses =
    skipped "Claims Preclaims" 1 1
    ∷ skipped "Claims Signing" 1 1
    ∷ skipped "Claims Claims" 1 1
    ∷ skipped "Claims Total" 1 1
    ∷ skipped "Claims Vesting" 1 1
    ∷ bounded "Vesting Vesting" 1 1 1057 3532
    ∷ bounded "System Account" 1 0 128 2603
    ∷ bounded "Balances Locks" 1 1 1299 3774
    ∷ bounded "Balances Freezes" 1 0 49 2524
    ∷ []

abbrev move_claim_accesses : List Access
move_claim_accesses =
    skipped "Claims Claims" 1 2
    ∷ skipped "Claims Vesting" 1 2
    ∷ skipped "Claims Signing" 1 2
    ∷ skipped "Claims Preclaims" 1 1
    ∷ []

abbrev pub accesses : Calls.Call → List Access
accesses Calls.claim = claim_accesses
accesses Calls.mint_claim = mint_claim_accesses
accesses Calls.claim_attest = claim_attest_accesses
accesses Calls.attest = attest_accesses
accesses Calls.move_claim = move_claim_accesses

-- Where the component, if any, is the one that the accesses were counted at.
abbrev pub IsAtTop : Calls.Call → Type 0
IsAtTop c = Calls.IsCounted c

-- A function whose documented estimate does not depend on a component.
abbrev pub is_fixed : Calls.Call → Bool
is_fixed _ = true

pub total-accesses : (c : Calls.Call) → total (accesses c) ≡ Calls.storage c
total-accesses c = ground arith

pub proof_of-accesses-le :
    (c : Calls.Call)
    → is_bounded (accesses c) ≡ true
    → IsAtTop c
    → proof_of (accesses c) ≤ Calls.estimated c
proof_of-accesses-le c b h = ground arith

pub proof_of-accesses :
    (c : Calls.Call)
    → is_bounded (accesses c) ≡ true
    → is_fixed c ≡ true
    → proof_of (accesses c) ≡ Calls.estimated c
proof_of-accesses c b e = ground arith
