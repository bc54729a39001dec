-- ===== src/Weights/Collective/Storage.antt =====
-- The storage accesses and proof sizes that the comments of
-- polkadot-parachains/integritee-runtime/src/weights/pallet_collective.rs document.
use parachain.Base.{◌≤◌, ◌≡◌, Bool, true, false, List, [], ◌∷◌, arith}
use parachain.Weights.Storage.{Access, skipped, total, is_bounded, proof_of}
use parachain.Weights.Collective.Laws as Calls

abbrev set_members_accesses : List Access
set_members_accesses =
    skipped "Council Members" 1 1
    ∷ skipped "Council Proposals" 1 0
    ∷ skipped "Council Voting" 100 100
    ∷ skipped "Council Prime" 0 1
    ∷ []

abbrev execute_accesses : List Access
execute_accesses = skipped "Council Members" 1 0 ∷ []

abbrev propose_execute_accesses : List Access
propose_execute_accesses = skipped "Council Members" 1 0 ∷ skipped "Council ProposalOf" 1 0 ∷ []

abbrev propose_proposed_accesses : List Access
propose_proposed_accesses =
    skipped "Council Members" 1 0
    ∷ skipped "Council ProposalOf" 1 1
    ∷ skipped "Council Proposals" 1 1
    ∷ skipped "Council ProposalCount" 1 1
    ∷ skipped "Council Voting" 0 1
    ∷ []

abbrev vote_accesses : List Access
vote_accesses = skipped "Council Members" 1 0 ∷ skipped "Council Voting" 1 1 ∷ []

abbrev close_early_disapproved_accesses : List Access
close_early_disapproved_accesses =
    skipped "Council Voting" 1 1
    ∷ skipped "Council Members" 1 0
    ∷ skipped "Council Proposals" 1 1
    ∷ skipped "Council ProposalOf" 0 1
    ∷ []

abbrev close_early_approved_accesses : List Access
close_early_approved_accesses =
    skipped "Council Voting" 1 1
    ∷ skipped "Council Members" 1 0
    ∷ skipped "Council ProposalOf" 1 1
    ∷ skipped "Council Proposals" 1 1
    ∷ []

abbrev close_disapproved_accesses : List Access
close_disapproved_accesses =
    skipped "Council Voting" 1 1
    ∷ skipped "Council Members" 1 0
    ∷ skipped "Council Prime" 1 0
    ∷ skipped "Council Proposals" 1 1
    ∷ skipped "Council ProposalOf" 0 1
    ∷ []

abbrev close_approved_accesses : List Access
close_approved_accesses =
    skipped "Council Voting" 1 1
    ∷ skipped "Council Members" 1 0
    ∷ skipped "Council Prime" 1 0
    ∷ skipped "Council ProposalOf" 1 1
    ∷ skipped "Council Proposals" 1 1
    ∷ []

abbrev disapprove_proposal_accesses : List Access
disapprove_proposal_accesses =
    skipped "Council Proposals" 1 1
    ∷ skipped "Council Voting" 0 1
    ∷ skipped "Council ProposalOf" 0 1
    ∷ []

abbrev pub accesses : Calls.Call → List Access
accesses (Calls.set_members _ _ _) = set_members_accesses
accesses (Calls.execute _ _) = execute_accesses
accesses (Calls.propose_execute _ _) = propose_execute_accesses
accesses (Calls.propose_proposed _ _ _) = propose_proposed_accesses
accesses (Calls.vote _) = vote_accesses
accesses (Calls.close_early_disapproved _ _) = close_early_disapproved_accesses
accesses (Calls.close_early_approved _ _ _) = close_early_approved_accesses
accesses (Calls.close_disapproved _ _) = close_disapproved_accesses
accesses (Calls.close_approved _ _ _) = close_approved_accesses
accesses (Calls.disapprove_proposal _) = disapprove_proposal_accesses

-- Where the component, if any, is the one that the accesses were counted at.
abbrev pub IsAtTop : Calls.Call → Type 0
IsAtTop c = Calls.IsCounted c

-- A function whose documented estimate does not depend on a component.
abbrev pub is_fixed : Calls.Call → Bool
is_fixed (Calls.set_members _ _ _) = false
is_fixed (Calls.execute _ _) = false
is_fixed (Calls.propose_execute _ _) = false
is_fixed (Calls.propose_proposed _ _ _) = false
is_fixed (Calls.vote _) = false
is_fixed (Calls.close_early_disapproved _ _) = false
is_fixed (Calls.close_early_approved _ _ _) = false
is_fixed (Calls.close_disapproved _ _) = false
is_fixed (Calls.close_approved _ _ _) = false
is_fixed (Calls.disapprove_proposal _) = false

pub total-accesses : (c : Calls.Call) → total (accesses c) ≡ Calls.storage c
total-accesses c = ground arith

pub proof_of-accesses-le :
    (c : Calls.Call)
    → is_bounded (accesses c) ≡ true
    → IsAtTop c
    → proof_of (accesses c) ≤ Calls.estimated c
proof_of-accesses-le c b h = ground arith

pub proof_of-accesses :
    (c : Calls.Call)
    → is_bounded (accesses c) ≡ true
    → is_fixed c ≡ true
    → proof_of (accesses c) ≡ Calls.estimated c
proof_of-accesses c b e = ground arith
