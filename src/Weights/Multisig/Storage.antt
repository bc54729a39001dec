-- ===== src/Weights/Multisig/Storage.antt =====
-- The storage accesses and proof sizes that the comments of
-- polkadot-parachains/integritee-runtime/src/weights/pallet_multisig.rs document.
use parachain.Base.{◌≤◌, ◌≡◌, Bool, true, List, [], ◌∷◌, arith}
use parachain.Weights.Storage.{Access, bounded, total, is_bounded, proof_of}
use parachain.Weights.Multisig.Laws as Calls

abbrev as_multi_create_accesses : List Access
as_multi_create_accesses = bounded "Multisig Multisigs" 1 1 465 2940 ∷ []

abbrev as_multi_approve_accesses : List Access
as_multi_approve_accesses = bounded "Multisig Multisigs" 1 1 465 2940 ∷ []

abbrev as_multi_complete_accesses : List Access
as_multi_complete_accesses =
    bounded "Multisig Multisigs" 1 1 465 2940 ∷ bounded "System Account" 1 1 128 2603 ∷ []

abbrev approve_as_multi_create_accesses : List Access
approve_as_multi_create_accesses = bounded "Multisig Multisigs" 1 1 465 2940 ∷ []

abbrev approve_as_multi_approve_accesses : List Access
approve_as_multi_approve_accesses = bounded "Multisig Multisigs" 1 1 465 2940 ∷ []

abbrev cancel_as_multi_accesses : List Access
cancel_as_multi_accesses = bounded "Multisig Multisigs" 1 1 465 2940 ∷ []

abbrev pub accesses : Calls.Call → List Access
accesses (Calls.as_multi_threshold_1 _) = []
accesses (Calls.as_multi_create _ _) = as_multi_create_accesses
accesses (Calls.as_multi_approve _ _) = as_multi_approve_accesses
accesses (Calls.as_multi_complete _ _) = as_multi_complete_accesses
accesses (Calls.approve_as_multi_create _) = approve_as_multi_create_accesses
accesses (Calls.approve_as_multi_approve _) = approve_as_multi_approve_accesses
accesses (Calls.cancel_as_multi _) = cancel_as_multi_accesses

-- Where the component, if any, is the one that the accesses were counted at.
abbrev pub IsAtTop : Calls.Call → Type 0
IsAtTop c = Calls.IsCounted c

-- A function whose documented estimate does not depend on a component.
abbrev pub is_fixed : Calls.Call → Bool
is_fixed _ = true

pub total-accesses : (c : Calls.Call) → total (accesses c) ≡ Calls.storage c
total-accesses c = ground arith

pub proof_of-accesses-le :
    (c : Calls.Call)
    → is_bounded (accesses c) ≡ true
    → IsAtTop c
    → proof_of (accesses c) ≤ Calls.estimated c
proof_of-accesses-le c b h = ground arith

pub proof_of-accesses :
    (c : Calls.Call)
    → is_bounded (accesses c) ≡ true
    → is_fixed c ≡ true
    → proof_of (accesses c) ≡ Calls.estimated c
proof_of-accesses c b e = ground arith
