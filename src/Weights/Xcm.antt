-- ===== src/Weights/Xcm.antt =====
-- The weight functions of `pallet_xcm`
-- (polkadot-parachains/integritee-runtime/src/weights/pallet_xcm.rs).
pub mod Laws
pub mod Storage
use parachain.Base.{ℕ}
use parachain.Weights.Interface.{Weights}

module _ (W : Weights) where
  open W use {Weight, from_parts, saturating_add, reads, writes}

  infixl 65 ◌⊕◌
  abbrev ◌⊕◌ : Weight → Weight → Weight
  a ⊕ b = saturating_add a b

  unfoldable pub send : Weight
  send = from_parts 48_215_000 0 ⊕ from_parts 0 3576 ⊕ reads 5 ⊕ writes 2

  unfoldable pub teleport_assets : Weight
  teleport_assets = from_parts 18_446_744_073_709_551_000 0 ⊕ from_parts 0 0

  unfoldable pub reserve_transfer_assets : Weight
  reserve_transfer_assets = from_parts 31_086_000 0 ⊕ from_parts 0 1489 ⊕ reads 1

  unfoldable pub execute : Weight
  execute = from_parts 18_446_744_073_709_551_000 0 ⊕ from_parts 0 0

  unfoldable pub force_xcm_version : Weight
  force_xcm_version = from_parts 16_433_000 0 ⊕ from_parts 0 0 ⊕ writes 1

  unfoldable pub force_default_xcm_version : Weight
  force_default_xcm_version = from_parts 4_987_000 0 ⊕ from_parts 0 0 ⊕ writes 1

  unfoldable pub force_subscribe_version_notify : Weight
  force_subscribe_version_notify = from_parts 55_719_000 0 ⊕ from_parts 0 3576 ⊕ reads 7 ⊕ writes 5

  unfoldable pub force_unsubscribe_version_notify : Weight
  force_unsubscribe_version_notify =
      from_parts 55_082_000 0 ⊕ from_parts 0 3759 ⊕ reads 6 ⊕ writes 4

  unfoldable pub force_suspension : Weight
  force_suspension = from_parts 4_866_000 0 ⊕ from_parts 0 0 ⊕ writes 1

  unfoldable pub migrate_supported_version : Weight
  migrate_supported_version = from_parts 27_336_000 0 ⊕ from_parts 0 11_095 ⊕ reads 4 ⊕ writes 2

  unfoldable pub migrate_version_notifiers : Weight
  migrate_version_notifiers = from_parts 27_732_000 0 ⊕ from_parts 0 11_099 ⊕ reads 4 ⊕ writes 2

  unfoldable pub already_notified_target : Weight
  already_notified_target = from_parts 28_607_000 0 ⊕ from_parts 0 13_581 ⊕ reads 5

  unfoldable pub notify_current_targets : Weight
  notify_current_targets = from_parts 47_261_000 0 ⊕ from_parts 0 6118 ⊕ reads 7 ⊕ writes 3

  unfoldable pub notify_target_migration_fail : Weight
  notify_target_migration_fail = from_parts 15_256_000 0 ⊕ from_parts 0 8587 ⊕ reads 3

  unfoldable pub migrate_version_notify_targets : Weight
  migrate_version_notify_targets =
      from_parts 25_634_000 0 ⊕ from_parts 0 11_106 ⊕ reads 4 ⊕ writes 2

  unfoldable pub migrate_and_notify_old_targets : Weight
  migrate_and_notify_old_targets =
      from_parts 57_320_000 0 ⊕ from_parts 0 11_148 ⊕ reads 9 ⊕ writes 4
