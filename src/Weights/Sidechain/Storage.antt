-- ===== src/Weights/Sidechain/Storage.antt =====
-- The storage accesses and proof sizes that the comments of
-- polkadot-parachains/integritee-runtime/src/weights/pallet_sidechain.rs document.
use parachain.Base.{◌≤◌, ◌≡◌, Bool, true, List, [], ◌∷◌, arith}
use parachain.Weights.Storage.{Access, skipped, total, is_bounded, proof_of}
use parachain.Weights.Sidechain.Laws as Calls

abbrev confirm_imported_sidechain_block_accesses : List Access
confirm_imported_sidechain_block_accesses =
    skipped "Teerex SovereignEnclaves" 1 0
    ∷ skipped "EnclaveBridge ShardConfigRegistry" 1 0
    ∷ skipped "EnclaveBridge ShardStatus" 1 1
    ∷ skipped "Sidechain SidechainBlockFinalizationCandidate" 1 1
    ∷ skipped "Sidechain LatestSidechainBlockConfirmation" 0 1
    ∷ []

abbrev pub accesses : Calls.Call → List Access
accesses Calls.confirm_imported_sidechain_block = confirm_imported_sidechain_block_accesses

-- Where the component, if any, is the one that the accesses were counted at.
abbrev pub IsAtTop : Calls.Call → Type 0
IsAtTop c = Calls.IsCounted c

-- A function whose documented estimate does not depend on a component.
abbrev pub is_fixed : Calls.Call → Bool
is_fixed _ = true

pub total-accesses : (c : Calls.Call) → total (accesses c) ≡ Calls.storage c
total-accesses c = ground arith

pub proof_of-accesses-le :
    (c : Calls.Call)
    → is_bounded (accesses c) ≡ true
    → IsAtTop c
    → proof_of (accesses c) ≤ Calls.estimated c
proof_of-accesses-le c b h = ground arith

pub proof_of-accesses :
    (c : Calls.Call)
    → is_bounded (accesses c) ≡ true
    → is_fixed c ≡ true
    → proof_of (accesses c) ≡ Calls.estimated c
proof_of-accesses c b e = ground arith
