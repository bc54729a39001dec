-- ===== src/Weights/Scheduler/Storage.antt =====
-- The storage accesses and proof sizes that the comments of
-- polkadot-parachains/integritee-runtime/src/weights/pallet_scheduler.rs document.
use parachain.Base.{◌≤◌, ◌≡◌, Bool, true, false, List, [], ◌∷◌, arith}
use parachain.Weights.Storage.{Access, bounded, total, is_bounded, proof_of}
use parachain.Weights.Scheduler.Laws as Calls

abbrev service_agendas_base_accesses : List Access
service_agendas_base_accesses = bounded "Scheduler IncompleteSince" 1 1 4 499 ∷ []

abbrev service_agenda_base_accesses : List Access
service_agenda_base_accesses = bounded "Scheduler Agenda" 1 1 38963 41438 ∷ []

abbrev service_task_fetched_accesses : List Access
service_task_fetched_accesses =
    bounded "Preimage PreimageFor" 1 1 4194344 4196819
    ∷ bounded "Preimage StatusFor" 1 1 91 2566
    ∷ []

abbrev service_task_named_accesses : List Access
service_task_named_accesses = bounded "Scheduler Lookup" 0 1 48 2523 ∷ []

abbrev schedule_accesses : List Access
schedule_accesses = bounded "Scheduler Agenda" 1 1 38963 41438 ∷ []

abbrev cancel_accesses : List Access
cancel_accesses =
    bounded "Scheduler Agenda" 1 1 38963 41438 ∷ bounded "Scheduler Lookup" 0 1 48 2523 ∷ []

abbrev schedule_named_accesses : List Access
schedule_named_accesses =
    bounded "Scheduler Lookup" 1 1 48 2523 ∷ bounded "Scheduler Agenda" 1 1 38963 41438 ∷ []

abbrev cancel_named_accesses : List Access
cancel_named_accesses =
    bounded "Scheduler Lookup" 1 1 48 2523 ∷ bounded "Scheduler Agenda" 1 1 38963 41438 ∷ []

abbrev pub accesses : Calls.Call → List Access
accesses Calls.service_agendas_base = service_agendas_base_accesses
accesses (Calls.service_agenda_base _) = service_agenda_base_accesses
accesses Calls.service_task_base = []
accesses (Calls.service_task_fetched _) = service_task_fetched_accesses
accesses Calls.service_task_named = service_task_named_accesses
accesses Calls.service_task_periodic = []
accesses Calls.execute_dispatch_signed = []
accesses Calls.execute_dispatch_unsigned = []
accesses (Calls.schedule _) = schedule_accesses
accesses (Calls.cancel _) = cancel_accesses
accesses (Calls.schedule_named _) = schedule_named_accesses
accesses (Calls.cancel_named _) = cancel_named_accesses

-- Where the component, if any, is the one that the accesses were counted at, which is the longest for a
-- call that is fetched.
abbrev pub IsAtTop : Calls.Call → Type 0
IsAtTop (Calls.service_task_fetched s) = s ≡ 4_194_304
IsAtTop c = Calls.IsCounted c

-- A function whose documented estimate does not depend on a component.
abbrev pub is_fixed : Calls.Call → Bool
is_fixed (Calls.service_task_fetched _) = false
is_fixed _ = true

pub total-accesses : (c : Calls.Call) → total (accesses c) ≡ Calls.storage c
total-accesses c = ground arith

pub proof_of-accesses-le :
    (c : Calls.Call)
    → is_bounded (accesses c) ≡ true
    → IsAtTop c
    → proof_of (accesses c) ≤ Calls.estimated c
proof_of-accesses-le c b h = ground arith

pub proof_of-accesses :
    (c : Calls.Call)
    → is_bounded (accesses c) ≡ true
    → is_fixed c ≡ true
    → proof_of (accesses c) ≡ Calls.estimated c
proof_of-accesses c b e = ground arith
