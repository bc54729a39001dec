-- ===== src/Weights/Vesting/Storage.antt =====
-- The storage accesses and proof sizes that the comments of
-- polkadot-parachains/integritee-runtime/src/weights/pallet_vesting.rs document.
use parachain.Base.{◌≤◌, ◌≡◌, Bool, true, List, [], ◌∷◌, arith}
use parachain.Weights.Storage.{Access, bounded, total, is_bounded, proof_of}
use parachain.Weights.Vesting.Laws as Calls

abbrev vest_locked_accesses : List Access
vest_locked_accesses =
    bounded "Vesting Vesting" 1 1 1057 3532
    ∷ bounded "Balances Locks" 1 1 1299 3774
    ∷ bounded "Balances Freezes" 1 0 49 2524
    ∷ []

abbrev vest_unlocked_accesses : List Access
vest_unlocked_accesses =
    bounded "Vesting Vesting" 1 1 1057 3532
    ∷ bounded "Balances Locks" 1 1 1299 3774
    ∷ bounded "Balances Freezes" 1 0 49 2524
    ∷ []

abbrev vest_other_locked_accesses : List Access
vest_other_locked_accesses =
    bounded "Vesting Vesting" 1 1 1057 3532
    ∷ bounded "Balances Locks" 1 1 1299 3774
    ∷ bounded "Balances Freezes" 1 0 49 2524
    ∷ bounded "System Account" 1 1 128 2603
    ∷ []

abbrev vest_other_unlocked_accesses : List Access
vest_other_unlocked_accesses =
    bounded "Vesting Vesting" 1 1 1057 3532
    ∷ bounded "Balances Locks" 1 1 1299 3774
    ∷ bounded "Balances Freezes" 1 0 49 2524
    ∷ bounded "System Account" 1 1 128 2603
    ∷ []

abbrev vested_transfer_accesses : List Access
vested_transfer_accesses =
    bounded "Vesting Vesting" 1 1 1057 3532
    ∷ bounded "System Account" 1 1 128 2603
    ∷ bounded "Balances Locks" 1 1 1299 3774
    ∷ bounded "Balances Freezes" 1 0 49 2524
    ∷ []

abbrev force_vested_transfer_accesses : List Access
force_vested_transfer_accesses =
    bounded "Vesting Vesting" 1 1 1057 3532
    ∷ bounded "System Account" 2 2 128 2603
    ∷ bounded "Balances Locks" 1 1 1299 3774
    ∷ bounded "Balances Freezes" 1 0 49 2524
    ∷ []

abbrev not_unlocking_merge_schedules_accesses : List Access
not_unlocking_merge_schedules_accesses =
    bounded "Vesting Vesting" 1 1 1057 3532
    ∷ bounded "Balances Locks" 1 1 1299 3774
    ∷ bounded "Balances Freezes" 1 0 49 2524
    ∷ bounded "System Account" 1 1 128 2603
    ∷ []

abbrev unlocking_merge_schedules_accesses : List Access
unlocking_merge_schedules_accesses =
    bounded "Vesting Vesting" 1 1 1057 3532
    ∷ bounded "Balances Locks" 1 1 1299 3774
    ∷ bounded "Balances Freezes" 1 0 49 2524
    ∷ bounded "System Account" 1 1 128 2603
    ∷ []

abbrev pub accesses : Calls.Call → List Access
accesses (Calls.vest_locked _ _) = vest_locked_accesses
accesses (Calls.vest_unlocked _ _) = vest_unlocked_accesses
accesses (Calls.vest_other_locked _ _) = vest_other_locked_accesses
accesses (Calls.vest_other_unlocked _ _) = vest_other_unlocked_accesses
accesses (Calls.vested_transfer _ _) = vested_transfer_accesses
accesses (Calls.force_vested_transfer _ _) = force_vested_transfer_accesses
accesses (Calls.not_unlocking_merge_schedules _ _) = not_unlocking_merge_schedules_accesses
accesses (Calls.unlocking_merge_schedules _ _) = unlocking_merge_schedules_accesses

-- Where the component, if any, is the one that the accesses were counted at.
abbrev pub IsAtTop : Calls.Call → Type 0
IsAtTop c = Calls.IsCounted c

-- A function whose documented estimate does not depend on a component.
abbrev pub is_fixed : Calls.Call → Bool
is_fixed _ = true

pub total-accesses : (c : Calls.Call) → total (accesses c) ≡ Calls.storage c
total-accesses c = ground arith

pub proof_of-accesses-le :
    (c : Calls.Call)
    → is_bounded (accesses c) ≡ true
    → IsAtTop c
    → proof_of (accesses c) ≤ Calls.estimated c
proof_of-accesses-le c b h = ground arith

pub proof_of-accesses :
    (c : Calls.Call)
    → is_bounded (accesses c) ≡ true
    → is_fixed c ≡ true
    → proof_of (accesses c) ≡ Calls.estimated c
proof_of-accesses c b e = ground arith
