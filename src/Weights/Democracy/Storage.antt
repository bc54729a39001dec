-- ===== src/Weights/Democracy/Storage.antt =====
-- The storage accesses and proof sizes that the comments of
-- polkadot-parachains/integritee-runtime/src/weights/pallet_democracy.rs document.
use parachain.Base.{◌≤◌, ◌≡◌, Bool, true, false, List, [], ◌∷◌, arith}
use parachain.Weights.Storage.{Access, bounded, total, is_bounded, proof_of}
use parachain.Weights.Democracy.Laws as Calls

abbrev propose_accesses : List Access
propose_accesses =
    bounded "Democracy PublicPropCount" 1 1 4 499
    ∷ bounded "Democracy PublicProps" 1 1 16702 17197
    ∷ bounded "Democracy Blacklist" 1 0 3238 5713
    ∷ bounded "Democracy DepositOf" 0 1 3230 5705
    ∷ []

abbrev second_accesses : List Access
second_accesses = bounded "Democracy DepositOf" 1 1 3230 5705 ∷ []

abbrev vote_new_accesses : List Access
vote_new_accesses =
    bounded "Democracy ReferendumInfoOf" 1 1 201 2676
    ∷ bounded "Democracy VotingOf" 1 1 3795 6270
    ∷ bounded "Balances Locks" 1 1 1299 3774
    ∷ bounded "Balances Freezes" 1 0 49 2524
    ∷ []

abbrev vote_existing_accesses : List Access
vote_existing_accesses =
    bounded "Democracy ReferendumInfoOf" 1 1 201 2676
    ∷ bounded "Democracy VotingOf" 1 1 3795 6270
    ∷ bounded "Balances Locks" 1 1 1299 3774
    ∷ bounded "Balances Freezes" 1 0 49 2524
    ∷ []

abbrev emergency_cancel_accesses : List Access
emergency_cancel_accesses =
    bounded "Democracy ReferendumInfoOf" 1 1 201 2676
    ∷ bounded "Democracy Cancellations" 1 1 33 2508
    ∷ bounded "Democracy MetadataOf" 1 1 53 2528
    ∷ []

abbrev blacklist_accesses : List Access
blacklist_accesses =
    bounded "Democracy PublicProps" 1 1 16702 17197
    ∷ bounded "Democracy DepositOf" 1 1 3230 5705
    ∷ bounded "System Account" 2 2 128 2603
    ∷ bounded "Democracy MetadataOf" 3 1 53 2528
    ∷ bounded "Democracy NextExternal" 1 1 132 627
    ∷ bounded "Democracy ReferendumInfoOf" 1 1 201 2676
    ∷ bounded "Democracy Blacklist" 0 1 3238 5713
    ∷ []

abbrev external_propose_accesses : List Access
external_propose_accesses =
    bounded "Democracy NextExternal" 1 1 132 627 ∷ bounded "Democracy Blacklist" 1 0 3238 5713 ∷ []

abbrev external_propose_majority_accesses : List Access
external_propose_majority_accesses = bounded "Democracy NextExternal" 0 1 132 627 ∷ []

abbrev external_propose_default_accesses : List Access
external_propose_default_accesses = bounded "Democracy NextExternal" 0 1 132 627 ∷ []

abbrev fast_track_accesses : List Access
fast_track_accesses =
    bounded "Democracy NextExternal" 1 1 132 627
    ∷ bounded "Democracy ReferendumCount" 1 1 4 499
    ∷ bounded "Democracy MetadataOf" 1 2 53 2528
    ∷ bounded "Democracy ReferendumInfoOf" 0 1 201 2676
    ∷ []

abbrev veto_external_accesses : List Access
veto_external_accesses =
    bounded "Democracy NextExternal" 1 1 132 627
    ∷ bounded "Democracy Blacklist" 1 1 3238 5713
    ∷ bounded "Democracy MetadataOf" 1 1 53 2528
    ∷ []

abbrev cancel_proposal_accesses : List Access
cancel_proposal_accesses =
    bounded "Democracy PublicProps" 1 1 16702 17197
    ∷ bounded "Democracy DepositOf" 1 1 3230 5705
    ∷ bounded "System Account" 2 2 128 2603
    ∷ bounded "Democracy MetadataOf" 1 1 53 2528
    ∷ []

abbrev cancel_referendum_accesses : List Access
cancel_referendum_accesses =
    bounded "Democracy MetadataOf" 1 1 53 2528
    ∷ bounded "Democracy ReferendumInfoOf" 0 1 201 2676
    ∷ []

abbrev on_initialize_base_accesses : List Access
on_initialize_base_accesses =
    bounded "Democracy LowestUnbaked" 1 1 4 499
    ∷ bounded "Democracy ReferendumCount" 1 0 4 499
    ∷ bounded "Democracy ReferendumInfoOf" 99 0 201 2676
    ∷ []

abbrev on_initialize_base_with_launch_period_accesses : List Access
on_initialize_base_with_launch_period_accesses =
    bounded "Democracy LowestUnbaked" 1 1 4 499
    ∷ bounded "Democracy ReferendumCount" 1 0 4 499
    ∷ bounded "Democracy LastTabledWasExternal" 1 0 1 496
    ∷ bounded "Democracy NextExternal" 1 0 132 627
    ∷ bounded "Democracy PublicProps" 1 0 16702 17197
    ∷ bounded "Democracy ReferendumInfoOf" 99 0 201 2676
    ∷ []

abbrev delegate_accesses : List Access
delegate_accesses =
    bounded "Democracy VotingOf" 3 3 3795 6270
    ∷ bounded "Democracy ReferendumInfoOf" 99 99 201 2676
    ∷ bounded "Balances Locks" 1 1 1299 3774
    ∷ bounded "Balances Freezes" 1 0 49 2524
    ∷ []

abbrev undelegate_accesses : List Access
undelegate_accesses =
    bounded "Democracy VotingOf" 2 2 3795 6270
    ∷ bounded "Democracy ReferendumInfoOf" 99 99 201 2676
    ∷ []

abbrev clear_public_proposals_accesses : List Access
clear_public_proposals_accesses = bounded "Democracy PublicProps" 0 1 16702 17197 ∷ []

abbrev unlock_remove_accesses : List Access
unlock_remove_accesses =
    bounded "Democracy VotingOf" 1 1 3795 6270
    ∷ bounded "Balances Locks" 1 1 1299 3774
    ∷ bounded "Balances Freezes" 1 0 49 2524
    ∷ bounded "System Account" 1 1 128 2603
    ∷ []

abbrev unlock_set_accesses : List Access
unlock_set_accesses =
    bounded "Democracy VotingOf" 1 1 3795 6270
    ∷ bounded "Balances Locks" 1 1 1299 3774
    ∷ bounded "Balances Freezes" 1 0 49 2524
    ∷ bounded "System Account" 1 1 128 2603
    ∷ []

abbrev remove_vote_accesses : List Access
remove_vote_accesses =
    bounded "Democracy ReferendumInfoOf" 1 1 201 2676
    ∷ bounded "Democracy VotingOf" 1 1 3795 6270
    ∷ []

abbrev remove_other_vote_accesses : List Access
remove_other_vote_accesses =
    bounded "Democracy ReferendumInfoOf" 1 1 201 2676
    ∷ bounded "Democracy VotingOf" 1 1 3795 6270
    ∷ []

abbrev set_external_metadata_accesses : List Access
set_external_metadata_accesses =
    bounded "Democracy NextExternal" 1 0 132 627
    ∷ bounded "Preimage StatusFor" 1 0 91 2566
    ∷ bounded "Democracy MetadataOf" 0 1 53 2528
    ∷ []

abbrev clear_external_metadata_accesses : List Access
clear_external_metadata_accesses =
    bounded "Democracy NextExternal" 1 0 132 627 ∷ bounded "Democracy MetadataOf" 1 1 53 2528 ∷ []

abbrev set_proposal_metadata_accesses : List Access
set_proposal_metadata_accesses =
    bounded "Democracy PublicProps" 1 0 16702 17197
    ∷ bounded "Preimage StatusFor" 1 0 91 2566
    ∷ bounded "Democracy MetadataOf" 0 1 53 2528
    ∷ []

abbrev clear_proposal_metadata_accesses : List Access
clear_proposal_metadata_accesses =
    bounded "Democracy PublicProps" 1 0 16702 17197
    ∷ bounded "Democracy MetadataOf" 1 1 53 2528
    ∷ []

abbrev set_referendum_metadata_accesses : List Access
set_referendum_metadata_accesses =
    bounded "Preimage StatusFor" 1 0 91 2566 ∷ bounded "Democracy MetadataOf" 0 1 53 2528 ∷ []

abbrev clear_referendum_metadata_accesses : List Access
clear_referendum_metadata_accesses =
    bounded "Democracy ReferendumInfoOf" 1 0 201 2676
    ∷ bounded "Democracy MetadataOf" 1 1 53 2528
    ∷ []

abbrev pub accesses : Calls.Call → List Access
accesses Calls.propose = propose_accesses
accesses Calls.second = second_accesses
accesses Calls.vote_new = vote_new_accesses
accesses Calls.vote_existing = vote_existing_accesses
accesses Calls.emergency_cancel = emergency_cancel_accesses
accesses Calls.blacklist = blacklist_accesses
accesses Calls.external_propose = external_propose_accesses
accesses Calls.external_propose_majority = external_propose_majority_accesses
accesses Calls.external_propose_default = external_propose_default_accesses
accesses Calls.fast_track = fast_track_accesses
accesses Calls.veto_external = veto_external_accesses
accesses Calls.cancel_proposal = cancel_proposal_accesses
accesses Calls.cancel_referendum = cancel_referendum_accesses
accesses (Calls.on_initialize_base _) = on_initialize_base_accesses
accesses (Calls.on_initialize_base_with_launch_period _) =
    on_initialize_base_with_launch_period_accesses
accesses (Calls.delegate _) = delegate_accesses
accesses (Calls.undelegate _) = undelegate_accesses
accesses Calls.clear_public_proposals = clear_public_proposals_accesses
accesses (Calls.unlock_remove _) = unlock_remove_accesses
accesses (Calls.unlock_set _) = unlock_set_accesses
accesses (Calls.remove_vote _) = remove_vote_accesses
accesses (Calls.remove_other_vote _) = remove_other_vote_accesses
accesses Calls.set_external_metadata = set_external_metadata_accesses
accesses Calls.clear_external_metadata = clear_external_metadata_accesses
accesses Calls.set_proposal_metadata = set_proposal_metadata_accesses
accesses Calls.clear_proposal_metadata = clear_proposal_metadata_accesses
accesses Calls.set_referendum_metadata = set_referendum_metadata_accesses
accesses Calls.clear_referendum_metadata = clear_referendum_metadata_accesses

-- Where the component, if any, is the one that the accesses were counted at.
abbrev pub IsAtTop : Calls.Call → Type 0
IsAtTop c = Calls.IsCounted c

-- A function whose documented estimate does not depend on a component.
abbrev pub is_fixed : Calls.Call → Bool
is_fixed (Calls.on_initialize_base _) = false
is_fixed (Calls.on_initialize_base_with_launch_period _) = false
is_fixed (Calls.delegate _) = false
is_fixed (Calls.undelegate _) = false
is_fixed _ = true

pub total-accesses : (c : Calls.Call) → total (accesses c) ≡ Calls.storage c
total-accesses c = ground arith

pub proof_of-accesses-le :
    (c : Calls.Call)
    → is_bounded (accesses c) ≡ true
    → IsAtTop c
    → proof_of (accesses c) ≤ Calls.estimated c
proof_of-accesses-le c b h = ground arith

pub proof_of-accesses :
    (c : Calls.Call)
    → is_bounded (accesses c) ≡ true
    → is_fixed c ≡ true
    → proof_of (accesses c) ≡ Calls.estimated c
proof_of-accesses c b e = ground arith
