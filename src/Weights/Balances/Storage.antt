-- ===== src/Weights/Balances/Storage.antt =====
-- The storage accesses and proof sizes that the comments of
-- polkadot-parachains/integritee-runtime/src/weights/pallet_balances.rs document.
use parachain.Base.{◌≤◌, ◌≡◌, Bool, true, false, List, [], ◌∷◌, arith}
use parachain.Weights.Storage.{Access, bounded, total, is_bounded, proof_of}
use parachain.Weights.Balances.Laws as Calls

abbrev transfer_allow_death_accesses : List Access
transfer_allow_death_accesses = bounded "System Account" 1 1 128 2603 ∷ []

abbrev transfer_keep_alive_accesses : List Access
transfer_keep_alive_accesses = bounded "System Account" 1 1 128 2603 ∷ []

abbrev force_set_balance_creating_accesses : List Access
force_set_balance_creating_accesses = bounded "System Account" 1 1 128 2603 ∷ []

abbrev force_set_balance_killing_accesses : List Access
force_set_balance_killing_accesses = bounded "System Account" 1 1 128 2603 ∷ []

abbrev force_transfer_accesses : List Access
force_transfer_accesses = bounded "System Account" 2 2 128 2603 ∷ []

abbrev transfer_all_accesses : List Access
transfer_all_accesses = bounded "System Account" 1 1 128 2603 ∷ []

abbrev force_unreserve_accesses : List Access
force_unreserve_accesses = bounded "System Account" 1 1 128 2603 ∷ []

abbrev upgrade_accounts_accesses : List Access
upgrade_accounts_accesses = bounded "System Account" 999 999 128 2603 ∷ []

abbrev pub accesses : Calls.Call → List Access
accesses Calls.transfer_allow_death = transfer_allow_death_accesses
accesses Calls.transfer_keep_alive = transfer_keep_alive_accesses
accesses Calls.force_set_balance_creating = force_set_balance_creating_accesses
accesses Calls.force_set_balance_killing = force_set_balance_killing_accesses
accesses Calls.force_transfer = force_transfer_accesses
accesses Calls.transfer_all = transfer_all_accesses
accesses Calls.force_unreserve = force_unreserve_accesses
accesses (Calls.upgrade_accounts _) = upgrade_accounts_accesses

-- Where the component, if any, is the one that the accesses were counted at.
abbrev pub IsAtTop : Calls.Call → Type 0
IsAtTop c = Calls.IsCounted c

-- A function whose documented estimate does not depend on a component.
abbrev pub is_fixed : Calls.Call → Bool
is_fixed (Calls.upgrade_accounts _) = false
is_fixed _ = true

pub total-accesses : (c : Calls.Call) → total (accesses c) ≡ Calls.storage c
total-accesses c = ground arith

pub proof_of-accesses-le :
    (c : Calls.Call)
    → is_bounded (accesses c) ≡ true
    → IsAtTop c
    → proof_of (accesses c) ≤ Calls.estimated c
proof_of-accesses-le c b h = ground arith

pub proof_of-accesses :
    (c : Calls.Call)
    → is_bounded (accesses c) ≡ true
    → is_fixed c ≡ true
    → proof_of (accesses c) ≡ Calls.estimated c
proof_of-accesses c b e = ground arith
