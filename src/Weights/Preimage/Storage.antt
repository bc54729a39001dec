-- ===== src/Weights/Preimage/Storage.antt =====
-- The storage accesses and proof sizes that the comments of
-- polkadot-parachains/integritee-runtime/src/weights/pallet_preimage.rs document.
use parachain.Base.{◌≤◌, ◌≡◌, Bool, true, List, [], ◌∷◌, arith}
use parachain.Weights.Storage.{Access, bounded, total, is_bounded, proof_of}
use parachain.Weights.Preimage.Laws as Calls

abbrev note_preimage_accesses : List Access
note_preimage_accesses =
    bounded "Preimage StatusFor" 1 1 91 2566
    ∷ bounded "Preimage PreimageFor" 0 1 4194344 4196819
    ∷ []

abbrev note_requested_preimage_accesses : List Access
note_requested_preimage_accesses =
    bounded "Preimage StatusFor" 1 1 91 2566
    ∷ bounded "Preimage PreimageFor" 0 1 4194344 4196819
    ∷ []

abbrev note_no_deposit_preimage_accesses : List Access
note_no_deposit_preimage_accesses =
    bounded "Preimage StatusFor" 1 1 91 2566
    ∷ bounded "Preimage PreimageFor" 0 1 4194344 4196819
    ∷ []

abbrev unnote_preimage_accesses : List Access
unnote_preimage_accesses =
    bounded "Preimage StatusFor" 1 1 91 2566
    ∷ bounded "Preimage PreimageFor" 0 1 4194344 4196819
    ∷ []

abbrev unnote_no_deposit_preimage_accesses : List Access
unnote_no_deposit_preimage_accesses =
    bounded "Preimage StatusFor" 1 1 91 2566
    ∷ bounded "Preimage PreimageFor" 0 1 4194344 4196819
    ∷ []

abbrev request_preimage_accesses : List Access
request_preimage_accesses = bounded "Preimage StatusFor" 1 1 91 2566 ∷ []

abbrev request_no_deposit_preimage_accesses : List Access
request_no_deposit_preimage_accesses = bounded "Preimage StatusFor" 1 1 91 2566 ∷ []

abbrev request_unnoted_preimage_accesses : List Access
request_unnoted_preimage_accesses = bounded "Preimage StatusFor" 1 1 91 2566 ∷ []

abbrev request_requested_preimage_accesses : List Access
request_requested_preimage_accesses = bounded "Preimage StatusFor" 1 1 91 2566 ∷ []

abbrev unrequest_preimage_accesses : List Access
unrequest_preimage_accesses =
    bounded "Preimage StatusFor" 1 1 91 2566
    ∷ bounded "Preimage PreimageFor" 0 1 4194344 4196819
    ∷ []

abbrev unrequest_unnoted_preimage_accesses : List Access
unrequest_unnoted_preimage_accesses = bounded "Preimage StatusFor" 1 1 91 2566 ∷ []

abbrev unrequest_multi_referenced_preimage_accesses : List Access
unrequest_multi_referenced_preimage_accesses = bounded "Preimage StatusFor" 1 1 91 2566 ∷ []

abbrev pub accesses : Calls.Call → List Access
accesses (Calls.note_preimage _) = note_preimage_accesses
accesses (Calls.note_requested_preimage _) = note_requested_preimage_accesses
accesses (Calls.note_no_deposit_preimage _) = note_no_deposit_preimage_accesses
accesses Calls.unnote_preimage = unnote_preimage_accesses
accesses Calls.unnote_no_deposit_preimage = unnote_no_deposit_preimage_accesses
accesses Calls.request_preimage = request_preimage_accesses
accesses Calls.request_no_deposit_preimage = request_no_deposit_preimage_accesses
accesses Calls.request_unnoted_preimage = request_unnoted_preimage_accesses
accesses Calls.request_requested_preimage = request_requested_preimage_accesses
accesses Calls.unrequest_preimage = unrequest_preimage_accesses
accesses Calls.unrequest_unnoted_preimage = unrequest_unnoted_preimage_accesses
accesses Calls.unrequest_multi_referenced_preimage = unrequest_multi_referenced_preimage_accesses

-- Where the component, if any, is the one that the accesses were counted at.
abbrev pub IsAtTop : Calls.Call → Type 0
IsAtTop c = Calls.IsCounted c

-- A function whose documented estimate does not depend on a component.
abbrev pub is_fixed : Calls.Call → Bool
is_fixed _ = true

pub total-accesses : (c : Calls.Call) → total (accesses c) ≡ Calls.storage c
total-accesses c = ground arith

pub proof_of-accesses-le :
    (c : Calls.Call)
    → is_bounded (accesses c) ≡ true
    → IsAtTop c
    → proof_of (accesses c) ≤ Calls.estimated c
proof_of-accesses-le c b h = ground arith

pub proof_of-accesses :
    (c : Calls.Call)
    → is_bounded (accesses c) ≡ true
    → is_fixed c ≡ true
    → proof_of (accesses c) ≡ Calls.estimated c
proof_of-accesses c b e = ground arith
