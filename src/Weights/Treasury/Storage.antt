-- ===== src/Weights/Treasury/Storage.antt =====
-- The storage accesses and proof sizes that the comments of
-- polkadot-parachains/integritee-runtime/src/weights/pallet_treasury.rs document.
use parachain.Base.{◌≤◌, ◌≡◌, Bool, true, false, List, [], ◌∷◌, arith}
use parachain.Weights.Storage.{Access, bounded, total, is_bounded, proof_of}
use parachain.Weights.Treasury.Laws as Calls

abbrev spend_accesses : List Access
spend_accesses =
    bounded "Treasury ProposalCount" 1 1 4 499
    ∷ bounded "Treasury Approvals" 1 1 41 536
    ∷ bounded "Treasury Proposals" 0 1 108 2583
    ∷ []

abbrev propose_spend_accesses : List Access
propose_spend_accesses =
    bounded "Treasury ProposalCount" 1 1 4 499 ∷ bounded "Treasury Proposals" 0 1 108 2583 ∷ []

abbrev reject_proposal_accesses : List Access
reject_proposal_accesses =
    bounded "Treasury Proposals" 1 1 108 2583 ∷ bounded "System Account" 1 1 128 2603 ∷ []

abbrev approve_proposal_accesses : List Access
approve_proposal_accesses =
    bounded "Treasury Proposals" 1 0 108 2583 ∷ bounded "Treasury Approvals" 1 1 41 536 ∷ []

abbrev remove_approval_accesses : List Access
remove_approval_accesses = bounded "Treasury Approvals" 1 1 41 536 ∷ []

abbrev on_initialize_proposals_accesses : List Access
on_initialize_proposals_accesses =
    bounded "System Account" 21 21 128 2603
    ∷ bounded "Treasury Deactivated" 1 1 16 511
    ∷ bounded "Balances InactiveIssuance" 1 1 16 511
    ∷ bounded "Treasury Approvals" 1 1 41 536
    ∷ bounded "Treasury Proposals" 10 10 108 2583
    ∷ bounded "Bounties BountyApprovals" 1 1 41 536
    ∷ []

abbrev pub accesses : Calls.Call → List Access
accesses Calls.spend = spend_accesses
accesses Calls.propose_spend = propose_spend_accesses
accesses Calls.reject_proposal = reject_proposal_accesses
accesses (Calls.approve_proposal _) = approve_proposal_accesses
accesses Calls.remove_approval = remove_approval_accesses
accesses (Calls.on_initialize_proposals _) = on_initialize_proposals_accesses

-- Where the component, if any, is the one that the accesses were counted at.
abbrev pub IsAtTop : Calls.Call → Type 0
IsAtTop c = Calls.IsCounted c

-- A function whose documented estimate does not depend on a component.
abbrev pub is_fixed : Calls.Call → Bool
is_fixed (Calls.on_initialize_proposals _) = false
is_fixed _ = true

pub total-accesses : (c : Calls.Call) → total (accesses c) ≡ Calls.storage c
total-accesses c = ground arith

pub proof_of-accesses-le :
    (c : Calls.Call)
    → is_bounded (accesses c) ≡ true
    → IsAtTop c
    → proof_of (accesses c) ≤ Calls.estimated c
proof_of-accesses-le c b h = ground arith

pub proof_of-accesses :
    (c : Calls.Call)
    → is_bounded (accesses c) ≡ true
    → is_fixed c ≡ true
    → proof_of (accesses c) ≡ Calls.estimated c
proof_of-accesses c b e = ground arith
