-- ===== src/Weights/Scheduler/Laws.antt =====
-- The components of the weight functions of `pallet_scheduler`, what their source documents of
-- each, and what they charge
-- (polkadot-parachains/integritee-runtime/src/weights/pallet_scheduler.rs).
use parachain.Base.{ℕ, ◌+◌, ◌*◌, ◌≤◌, ◌≡◌, ◌↔◌, arith}
use parachain.Weights.Interface.{Weights, counting}
use parachain.Weights.Interface.Laws.{AreDocumented, saturate-le, saturate_of_le, weight_laws}
use parachain.Weights.Scheduler

-- The functions, with their components.
pub data Call : Type 0 where
  service_agendas_base : Call
  service_agenda_base : ℕ → Call
  service_task_base : Call
  service_task_fetched : ℕ → Call
  service_task_named : Call
  service_task_periodic : Call
  execute_dispatch_signed : Call
  execute_dispatch_unsigned : Call
  schedule : ℕ → Call
  cancel : ℕ → Call
  schedule_named : ℕ → Call
  cancel_named : ℕ → Call

unfoldable pub weight : (W : Weights) → Call → W.Weight
unfolding Scheduler.service_agendas_base Scheduler.service_agenda_base Scheduler.service_task_base
    Scheduler.service_task_fetched Scheduler.service_task_named Scheduler.service_task_periodic
    Scheduler.execute_dispatch_signed Scheduler.execute_dispatch_unsigned Scheduler.schedule
    Scheduler.cancel Scheduler.schedule_named Scheduler.cancel_named
weight W service_agendas_base = Scheduler.service_agendas_base W
weight W (service_agenda_base s) = Scheduler.service_agenda_base W s
weight W service_task_base = Scheduler.service_task_base W
weight W (service_task_fetched s) = Scheduler.service_task_fetched W s
weight W service_task_named = Scheduler.service_task_named W
weight W service_task_periodic = Scheduler.service_task_periodic W
weight W execute_dispatch_signed = Scheduler.execute_dispatch_signed W
weight W execute_dispatch_unsigned = Scheduler.execute_dispatch_unsigned W
weight W (schedule s) = Scheduler.schedule W s
weight W (cancel s) = Scheduler.cancel W s
weight W (schedule_named s) = Scheduler.schedule_named W s
weight W (cancel_named s) = Scheduler.cancel_named W s

-- "The range of component ... is ..."
abbrev pub InRange : Call → Type 0
InRange (service_agenda_base s) = (s ≤ 50)
InRange (service_task_fetched s) = (128 ≤ s) × (s ≤ 4_194_304)
InRange (schedule s) = (s ≤ 49)
InRange (cancel s) = (1 ≤ s) × (s ≤ 50)
InRange (schedule_named s) = (s ≤ 49)
InRange (cancel_named s) = (1 ≤ s) × (s ≤ 50)
InRange _ = Unit {0}

-- "Estimated: ...", the size of the proof in bytes.
abbrev pub estimated : Call → ℕ
estimated service_agendas_base = 1489
estimated (service_agenda_base _) = 42_428
estimated service_task_base = 0
estimated (service_task_fetched s) = 3678 + s * 1
estimated service_task_named = 0
estimated service_task_periodic = 0
estimated execute_dispatch_signed = 0
estimated execute_dispatch_unsigned = 0
estimated (schedule _) = 42_428
estimated (cancel _) = 42_428
estimated (schedule_named _) = 42_428
estimated (cancel_named _) = 42_428

-- "Storage: ... (r:... w:...)", added up.
abbrev pub storage : Call → ℕ × ℕ
storage service_agendas_base = (1, 1)
storage (service_agenda_base _) = (1, 1)
storage service_task_base = (0, 0)
storage (service_task_fetched _) = (2, 2)
storage service_task_named = (0, 1)
storage service_task_periodic = (0, 0)
storage execute_dispatch_signed = (0, 0)
storage execute_dispatch_unsigned = (0, 0)
storage (schedule _) = (1, 1)
storage (cancel _) = (1, 2)
storage (schedule_named _) = (2, 2)
storage (cancel_named _) = (2, 2)

-- The component at which the accesses were counted, where they depend on one.
abbrev pub IsCounted : Call → Type 0
IsCounted _ = Unit {0}

-- The length of the call that `service_task_fetched` fetches, and 0 for all others.
abbrev pub fetched_length : Call → ℕ
fetched_length (service_task_fetched s) = s
fetched_length _ = 0

pub estimated-le : (c : Call) → InRange c → estimated c ≤ 2_621_440 + fetched_length c
estimated-le service_agendas_base h = omega arith
estimated-le _ h = omega arith

pub fetched_length-le : (c : Call) → InRange c → fetched_length c ≤ 4_194_304
fetched_length-le service_agendas_base h = omega arith
fetched_length-le _ h = omega arith

-- A proof of the estimated size has room in a half of a block or more exactly if the call's length
-- leaves 3678 bytes.
pub estimated_has_room_iff :
    (c : Call) {room : ℕ}
    → InRange c
    → 2_621_440 ≤ room
    → (estimated c ≤ room) ↔ (fetched_length c + 3_678 ≤ room)
estimated_has_room_iff service_agendas_base h r = (λ e. omega (arith, r), λ e. omega (arith, r))
estimated_has_room_iff _ h r = (λ e. omega (arith, e, r), λ e. omega (arith, e, r))

module _ (W : Weights) ⦃D : AreDocumented W⦄ where
  -- In the documented ranges the proof size is the documented estimate: nothing saturates.
  pub proof_size-weight : (c : Call) → InRange c → W.proof_size (weight W c) ≡ estimated c
  unfolding weight
  proof_size-weight service_agendas_base h = simp weight_laws (omega (arith, saturate_of_le))
  proof_size-weight _ h = simp weight_laws (omega (arith, saturate_of_le))

  -- In the documented ranges, with storage as fast as documented, the execution takes at most a
  -- quarter of a second.
  pub ref_time-weight-le :
      D.read ≤ 25_000_000
      → D.write ≤ 100_000_000
      → (c : Call) → InRange c
      → W.ref_time (weight W c) ≤ 250_000_000_000
  unfolding weight
  ref_time-weight-le fast quick service_agendas_base h =
      simp weight_laws (omega (arith, saturate-le))
  ref_time-weight-le fast quick _ h = simp weight_laws (omega (arith, saturate-le))

-- At the counted component the weight charges the documented accesses, no more and no fewer.
pub weight-counting : (c : Call) → IsCounted c → weight counting c ≡ storage c
unfolding weight
weight-counting service_agendas_base h = ground arith
weight-counting _ h = ground arith
