-- ===== src/Weights/ChildBounties/Storage.antt =====
-- The storage accesses and proof sizes that the comments of
-- polkadot-parachains/integritee-runtime/src/weights/pallet_child_bounties.rs document.
use parachain.Base.{◌≤◌, ◌≡◌, Bool, true, List, [], ◌∷◌, arith}
use parachain.Weights.Storage.{Access, bounded, total, is_bounded, proof_of}
use parachain.Weights.ChildBounties.Laws as Calls

abbrev add_child_bounty_accesses : List Access
add_child_bounty_accesses =
    bounded "ChildBounties ParentChildBounties" 1 1 16 2491
    ∷ bounded "Bounties Bounties" 1 0 177 2652
    ∷ bounded "System Account" 2 2 128 2603
    ∷ bounded "ChildBounties ChildBountyCount" 1 1 4 499
    ∷ bounded "ChildBounties ChildBountyDescriptions" 0 1 16400 18875
    ∷ bounded "ChildBounties ChildBounties" 0 1 145 2620
    ∷ []

abbrev propose_curator_accesses : List Access
propose_curator_accesses =
    bounded "Bounties Bounties" 1 0 177 2652
    ∷ bounded "ChildBounties ChildBounties" 1 1 145 2620
    ∷ bounded "ChildBounties ChildrenCuratorFees" 1 1 28 2503
    ∷ []

abbrev accept_curator_accesses : List Access
accept_curator_accesses =
    bounded "Bounties Bounties" 1 0 177 2652
    ∷ bounded "ChildBounties ChildBounties" 1 1 145 2620
    ∷ bounded "System Account" 1 1 128 2603
    ∷ []

abbrev unassign_curator_accesses : List Access
unassign_curator_accesses =
    bounded "ChildBounties ChildBounties" 1 1 145 2620
    ∷ bounded "Bounties Bounties" 1 0 177 2652
    ∷ bounded "System Account" 1 1 128 2603
    ∷ []

abbrev award_child_bounty_accesses : List Access
award_child_bounty_accesses =
    bounded "Bounties Bounties" 1 0 177 2652
    ∷ bounded "ChildBounties ChildBounties" 1 1 145 2620
    ∷ []

abbrev claim_child_bounty_accesses : List Access
claim_child_bounty_accesses =
    bounded "ChildBounties ChildBounties" 1 1 145 2620
    ∷ bounded "System Account" 3 3 128 2603
    ∷ bounded "ChildBounties ParentChildBounties" 1 1 16 2491
    ∷ bounded "ChildBounties ChildBountyDescriptions" 0 1 16400 18875
    ∷ []

abbrev close_child_bounty_added_accesses : List Access
close_child_bounty_added_accesses =
    bounded "Bounties Bounties" 1 0 177 2652
    ∷ bounded "ChildBounties ChildBounties" 1 1 145 2620
    ∷ bounded "ChildBounties ChildrenCuratorFees" 1 1 28 2503
    ∷ bounded "ChildBounties ParentChildBounties" 1 1 16 2491
    ∷ bounded "System Account" 2 2 128 2603
    ∷ bounded "ChildBounties ChildBountyDescriptions" 0 1 16400 18875
    ∷ []

abbrev close_child_bounty_active_accesses : List Access
close_child_bounty_active_accesses =
    bounded "Bounties Bounties" 1 0 177 2652
    ∷ bounded "ChildBounties ChildBounties" 1 1 145 2620
    ∷ bounded "System Account" 3 3 128 2603
    ∷ bounded "ChildBounties ChildrenCuratorFees" 1 1 28 2503
    ∷ bounded "ChildBounties ParentChildBounties" 1 1 16 2491
    ∷ bounded "ChildBounties ChildBountyDescriptions" 0 1 16400 18875
    ∷ []

abbrev pub accesses : Calls.Call → List Access
accesses (Calls.add_child_bounty _) = add_child_bounty_accesses
accesses Calls.propose_curator = propose_curator_accesses
accesses Calls.accept_curator = accept_curator_accesses
accesses Calls.unassign_curator = unassign_curator_accesses
accesses Calls.award_child_bounty = award_child_bounty_accesses
accesses Calls.claim_child_bounty = claim_child_bounty_accesses
accesses Calls.close_child_bounty_added = close_child_bounty_added_accesses
accesses Calls.close_child_bounty_active = close_child_bounty_active_accesses

-- Where the component, if any, is the one that the accesses were counted at.
abbrev pub IsAtTop : Calls.Call → Type 0
IsAtTop c = Calls.IsCounted c

-- A function whose documented estimate does not depend on a component.
abbrev pub is_fixed : Calls.Call → Bool
is_fixed _ = true

pub total-accesses : (c : Calls.Call) → total (accesses c) ≡ Calls.storage c
total-accesses c = ground arith

pub proof_of-accesses-le :
    (c : Calls.Call)
    → is_bounded (accesses c) ≡ true
    → IsAtTop c
    → proof_of (accesses c) ≤ Calls.estimated c
proof_of-accesses-le c b h = ground arith

pub proof_of-accesses :
    (c : Calls.Call)
    → is_bounded (accesses c) ≡ true
    → is_fixed c ≡ true
    → proof_of (accesses c) ≡ Calls.estimated c
proof_of-accesses c b e = ground arith
