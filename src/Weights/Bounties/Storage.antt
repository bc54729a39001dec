-- ===== src/Weights/Bounties/Storage.antt =====
-- The storage accesses and proof sizes that the comments of
-- polkadot-parachains/integritee-runtime/src/weights/pallet_bounties.rs document.
use parachain.Base.{◌≤◌, ◌≡◌, Bool, true, false, List, [], ◌∷◌, arith}
use parachain.Weights.Storage.{Access, bounded, total, is_bounded, proof_of}
use parachain.Weights.Bounties.Laws as Calls

abbrev propose_bounty_accesses : List Access
propose_bounty_accesses =
    bounded "Bounties BountyCount" 1 1 4 499
    ∷ bounded "System Account" 1 1 128 2603
    ∷ bounded "Bounties BountyDescriptions" 0 1 16400 18875
    ∷ bounded "Bounties Bounties" 0 1 177 2652
    ∷ []

abbrev approve_bounty_accesses : List Access
approve_bounty_accesses =
    bounded "Bounties Bounties" 1 1 177 2652 ∷ bounded "Bounties BountyApprovals" 1 1 402 897 ∷ []

abbrev propose_curator_accesses : List Access
propose_curator_accesses = bounded "Bounties Bounties" 1 1 177 2652 ∷ []

abbrev unassign_curator_accesses : List Access
unassign_curator_accesses =
    bounded "Bounties Bounties" 1 1 177 2652 ∷ bounded "System Account" 1 1 128 2603 ∷ []

abbrev accept_curator_accesses : List Access
accept_curator_accesses =
    bounded "Bounties Bounties" 1 1 177 2652 ∷ bounded "System Account" 1 1 128 2603 ∷ []

abbrev award_bounty_accesses : List Access
award_bounty_accesses =
    bounded "Bounties Bounties" 1 1 177 2652
    ∷ bounded "ChildBounties ParentChildBounties" 1 0 16 2491
    ∷ []

abbrev claim_bounty_accesses : List Access
claim_bounty_accesses =
    bounded "Bounties Bounties" 1 1 177 2652
    ∷ bounded "System Account" 3 3 128 2603
    ∷ bounded "ChildBounties ChildrenCuratorFees" 1 1 28 2503
    ∷ bounded "Bounties BountyDescriptions" 0 1 16400 18875
    ∷ []

abbrev close_bounty_proposed_accesses : List Access
close_bounty_proposed_accesses =
    bounded "Bounties Bounties" 1 1 177 2652
    ∷ bounded "ChildBounties ParentChildBounties" 1 0 16 2491
    ∷ bounded "System Account" 1 1 128 2603
    ∷ bounded "Bounties BountyDescriptions" 0 1 16400 18875
    ∷ []

abbrev close_bounty_active_accesses : List Access
close_bounty_active_accesses =
    bounded "Bounties Bounties" 1 1 177 2652
    ∷ bounded "ChildBounties ParentChildBounties" 1 0 16 2491
    ∷ bounded "System Account" 2 2 128 2603
    ∷ bounded "Bounties BountyDescriptions" 0 1 16400 18875
    ∷ []

abbrev extend_bounty_expiry_accesses : List Access
extend_bounty_expiry_accesses = bounded "Bounties Bounties" 1 1 177 2652 ∷ []

abbrev spend_funds_accesses : List Access
spend_funds_accesses =
    bounded "Bounties BountyApprovals" 1 1 402 897
    ∷ bounded "Bounties Bounties" 100 100 177 2652
    ∷ bounded "System Account" 200 200 128 2603
    ∷ []

abbrev pub accesses : Calls.Call → List Access
accesses (Calls.propose_bounty _) = propose_bounty_accesses
accesses Calls.approve_bounty = approve_bounty_accesses
accesses Calls.propose_curator = propose_curator_accesses
accesses Calls.unassign_curator = unassign_curator_accesses
accesses Calls.accept_curator = accept_curator_accesses
accesses Calls.award_bounty = award_bounty_accesses
accesses Calls.claim_bounty = claim_bounty_accesses
accesses Calls.close_bounty_proposed = close_bounty_proposed_accesses
accesses Calls.close_bounty_active = close_bounty_active_accesses
accesses Calls.extend_bounty_expiry = extend_bounty_expiry_accesses
accesses (Calls.spend_funds _) = spend_funds_accesses

-- Where the component, if any, is the one that the accesses were counted at.
abbrev pub IsAtTop : Calls.Call → Type 0
IsAtTop c = Calls.IsCounted c

-- A function whose documented estimate does not depend on a component.
abbrev pub is_fixed : Calls.Call → Bool
is_fixed (Calls.spend_funds _) = false
is_fixed _ = true

pub total-accesses : (c : Calls.Call) → total (accesses c) ≡ Calls.storage c
total-accesses c = ground arith

pub proof_of-accesses-le :
    (c : Calls.Call)
    → is_bounded (accesses c) ≡ true
    → IsAtTop c
    → proof_of (accesses c) ≤ Calls.estimated c
proof_of-accesses-le c b h = ground arith

pub proof_of-accesses :
    (c : Calls.Call)
    → is_bounded (accesses c) ≡ true
    → is_fixed c ≡ true
    → proof_of (accesses c) ≡ Calls.estimated c
proof_of-accesses c b e = ground arith
