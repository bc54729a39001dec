-- ===== src/Weights/Utility/Storage.antt =====
-- The storage accesses and proof sizes that the comments of
-- polkadot-parachains/integritee-runtime/src/weights/pallet_utility.rs document.
use parachain.Base.{◌≤◌, ◌≡◌, Bool, true, List, [], arith}
use parachain.Weights.Storage.{Access, total, is_bounded, proof_of}
use parachain.Weights.Utility.Laws as Calls

abbrev pub accesses : Calls.Call → List Access
accesses (Calls.batch _) = []
accesses Calls.as_derivative = []
accesses (Calls.batch_all _) = []
accesses Calls.dispatch_as = []
accesses (Calls.force_batch _) = []

-- Where the component, if any, is the one that the accesses were counted at.
abbrev pub IsAtTop : Calls.Call → Type 0
IsAtTop c = Calls.IsCounted c

-- A function whose documented estimate does not depend on a component.
abbrev pub is_fixed : Calls.Call → Bool
is_fixed _ = true

pub total-accesses : (c : Calls.Call) → total (accesses c) ≡ Calls.storage c
total-accesses c = ground arith

pub proof_of-accesses-le :
    (c : Calls.Call)
    → is_bounded (accesses c) ≡ true
    → IsAtTop c
    → proof_of (accesses c) ≤ Calls.estimated c
proof_of-accesses-le c b h = ground arith

pub proof_of-accesses :
    (c : Calls.Call)
    → is_bounded (accesses c) ≡ true
    → is_fixed c ≡ true
    → proof_of (accesses c) ≡ Calls.estimated c
proof_of-accesses c b e = ground arith
