-- ===== src/Weights/Scheduler.antt =====
-- The weight functions of `pallet_scheduler`
-- (polkadot-parachains/integritee-runtime/src/weights/pallet_scheduler.rs).
pub mod Laws
pub mod Storage
use parachain.Base.{ℕ}
use parachain.Weights.Interface.{Weights}

module _ (W : Weights) where
  open W use {Weight, from_parts, saturating_add, saturating_mul, reads, writes}

  infixl 65 ◌⊕◌
  abbrev ◌⊕◌ : Weight → Weight → Weight
  a ⊕ b = saturating_add a b

  unfoldable pub service_agendas_base : Weight
  service_agendas_base = from_parts 6_909_000 0 ⊕ from_parts 0 1489 ⊕ reads 1 ⊕ writes 1

  unfoldable pub service_agenda_base : ℕ → Weight
  service_agenda_base s =
      from_parts 21_069_120 0
      ⊕ from_parts 0 42_428
      ⊕ saturating_mul (from_parts 1_311_090 0) s
      ⊕ reads 1
      ⊕ writes 1

  unfoldable pub service_task_base : Weight
  service_task_base = from_parts 7_029_000 0 ⊕ from_parts 0 0

  unfoldable pub service_task_fetched : ℕ → Weight
  service_task_fetched s =
      from_parts 25_243_000 0
      ⊕ from_parts 0 3678
      ⊕ saturating_mul (from_parts 908 0) s
      ⊕ reads 2
      ⊕ writes 2
      ⊕ saturating_mul (from_parts 0 1) s

  unfoldable pub service_task_named : Weight
  service_task_named = from_parts 7_421_000 0 ⊕ from_parts 0 0 ⊕ writes 1

  unfoldable pub service_task_periodic : Weight
  service_task_periodic = from_parts 5_893_000 0 ⊕ from_parts 0 0

  unfoldable pub execute_dispatch_signed : Weight
  execute_dispatch_signed = from_parts 2_833_000 0 ⊕ from_parts 0 0

  unfoldable pub execute_dispatch_unsigned : Weight
  execute_dispatch_unsigned = from_parts 2_985_000 0 ⊕ from_parts 0 0

  unfoldable pub schedule : ℕ → Weight
  schedule s =
      from_parts 16_268_835 0
      ⊕ from_parts 0 42_428
      ⊕ saturating_mul (from_parts 714_822 0) s
      ⊕ reads 1
      ⊕ writes 1

  unfoldable pub cancel : ℕ → Weight
  cancel s =
      from_parts 15_262_448 0
      ⊕ from_parts 0 42_428
      ⊕ saturating_mul (from_parts 1_318_388 0) s
      ⊕ reads 1
      ⊕ writes 2

  unfoldable pub schedule_named : ℕ → Weight
  schedule_named s =
      from_parts 18_364_770 0
      ⊕ from_parts 0 42_428
      ⊕ saturating_mul (from_parts 794_277 0) s
      ⊕ reads 2
      ⊕ writes 2

  unfoldable pub cancel_named : ℕ → Weight
  cancel_named s =
      from_parts 17_704_325 0
      ⊕ from_parts 0 42_428
      ⊕ saturating_mul (from_parts 1_350_999 0) s
      ⊕ reads 2
      ⊕ writes 2
