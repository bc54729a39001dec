-- ===== src/Weights/System/Storage.antt =====
-- The storage accesses and proof sizes that the comments of
-- polkadot-parachains/integritee-runtime/src/weights/frame_system.rs document.
use parachain.Base.{◌≤◌, ◌≡◌, Bool, true, false, List, [], ◌∷◌, arith}
use parachain.Weights.Storage.{Access, skipped, total, is_bounded, proof_of}
use parachain.Weights.System.Laws as Calls

abbrev set_heap_pages_accesses : List Access
set_heap_pages_accesses =
    skipped "System Digest" 1 1 ∷ skipped "unknown 0x3a686561707061676573" 0 1 ∷ []

abbrev set_storage_accesses : List Access
set_storage_accesses = skipped "Skipped Metadata" 0 0 ∷ []

abbrev kill_storage_accesses : List Access
kill_storage_accesses = skipped "Skipped Metadata" 0 0 ∷ []

abbrev kill_prefix_accesses : List Access
kill_prefix_accesses = skipped "Skipped Metadata" 0 0 ∷ []

abbrev pub accesses : Calls.Call → List Access
accesses (Calls.remark _) = []
accesses (Calls.remark_with_event _) = []
accesses Calls.set_heap_pages = set_heap_pages_accesses
accesses (Calls.set_storage _) = set_storage_accesses
accesses (Calls.kill_storage _) = kill_storage_accesses
accesses (Calls.kill_prefix _) = kill_prefix_accesses

-- Where the component, if any, is the one that the accesses were counted at.
abbrev pub IsAtTop : Calls.Call → Type 0
IsAtTop c = Calls.IsCounted c

-- A function whose documented estimate does not depend on a component.
abbrev pub is_fixed : Calls.Call → Bool
is_fixed (Calls.kill_prefix _) = false
is_fixed _ = true

pub total-accesses : (c : Calls.Call) → total (accesses c) ≡ Calls.storage c
total-accesses c = ground arith

pub proof_of-accesses-le :
    (c : Calls.Call)
    → is_bounded (accesses c) ≡ true
    → IsAtTop c
    → proof_of (accesses c) ≤ Calls.estimated c
proof_of-accesses-le c b h = ground arith

pub proof_of-accesses :
    (c : Calls.Call)
    → is_bounded (accesses c) ≡ true
    → is_fixed c ≡ true
    → proof_of (accesses c) ≡ Calls.estimated c
proof_of-accesses c b e = ground arith
