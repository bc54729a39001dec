-- ===== src/Weights/Xcm/Laws.antt =====
-- The components of the weight functions of `pallet_xcm`, what their source documents of each, and
-- what they charge (polkadot-parachains/integritee-runtime/src/weights/pallet_xcm.rs).
use parachain.Base.{ℕ, ◌≤◌, ◌<◌, ◌≡◌, arith, Bool, true, false}
use parachain.Weights.Interface.{Weights, counting}
use parachain.Weights.Interface.Laws.{AreDocumented, saturate-le, saturate_of_le, weight_laws}
use parachain.Weights.Xcm

-- The functions, with their components.
pub data Call : Type 0 where
  send : Call
  teleport_assets : Call
  reserve_transfer_assets : Call
  execute : Call
  force_xcm_version : Call
  force_default_xcm_version : Call
  force_subscribe_version_notify : Call
  force_unsubscribe_version_notify : Call
  force_suspension : Call
  migrate_supported_version : Call
  migrate_version_notifiers : Call
  already_notified_target : Call
  notify_current_targets : Call
  notify_target_migration_fail : Call
  migrate_version_notify_targets : Call
  migrate_and_notify_old_targets : Call

unfoldable pub weight : (W : Weights) → Call → W.Weight
unfolding Xcm.send Xcm.teleport_assets Xcm.reserve_transfer_assets Xcm.execute Xcm.force_xcm_version
    Xcm.force_default_xcm_version Xcm.force_subscribe_version_notify
    Xcm.force_unsubscribe_version_notify Xcm.force_suspension Xcm.migrate_supported_version
    Xcm.migrate_version_notifiers Xcm.already_notified_target Xcm.notify_current_targets
    Xcm.notify_target_migration_fail Xcm.migrate_version_notify_targets
    Xcm.migrate_and_notify_old_targets
weight W send = Xcm.send W
weight W teleport_assets = Xcm.teleport_assets W
weight W reserve_transfer_assets = Xcm.reserve_transfer_assets W
weight W execute = Xcm.execute W
weight W force_xcm_version = Xcm.force_xcm_version W
weight W force_default_xcm_version = Xcm.force_default_xcm_version W
weight W force_subscribe_version_notify = Xcm.force_subscribe_version_notify W
weight W force_unsubscribe_version_notify = Xcm.force_unsubscribe_version_notify W
weight W force_suspension = Xcm.force_suspension W
weight W migrate_supported_version = Xcm.migrate_supported_version W
weight W migrate_version_notifiers = Xcm.migrate_version_notifiers W
weight W already_notified_target = Xcm.already_notified_target W
weight W notify_current_targets = Xcm.notify_current_targets W
weight W notify_target_migration_fail = Xcm.notify_target_migration_fail W
weight W migrate_version_notify_targets = Xcm.migrate_version_notify_targets W
weight W migrate_and_notify_old_targets = Xcm.migrate_and_notify_old_targets W

-- "The range of component ... is ..."
abbrev pub InRange : Call → Type 0
InRange _ = Unit {0}

-- "Estimated: ...", the size of the proof in bytes.
abbrev pub estimated : Call → ℕ
estimated send = 3576
estimated teleport_assets = 0
estimated reserve_transfer_assets = 1489
estimated execute = 0
estimated force_xcm_version = 0
estimated force_default_xcm_version = 0
estimated force_subscribe_version_notify = 3576
estimated force_unsubscribe_version_notify = 3759
estimated force_suspension = 0
estimated migrate_supported_version = 11_095
estimated migrate_version_notifiers = 11_099
estimated already_notified_target = 13_581
estimated notify_current_targets = 6118
estimated notify_target_migration_fail = 8587
estimated migrate_version_notify_targets = 11_106
estimated migrate_and_notify_old_targets = 11_148

-- "Storage: ... (r:... w:...)", added up.
abbrev pub storage : Call → ℕ × ℕ
storage send = (5, 2)
storage teleport_assets = (0, 0)
storage reserve_transfer_assets = (1, 0)
storage execute = (0, 0)
storage force_xcm_version = (0, 1)
storage force_default_xcm_version = (0, 1)
storage force_subscribe_version_notify = (7, 5)
storage force_unsubscribe_version_notify = (6, 4)
storage force_suspension = (0, 1)
storage migrate_supported_version = (4, 2)
storage migrate_version_notifiers = (4, 2)
storage already_notified_target = (5, 0)
storage notify_current_targets = (7, 3)
storage notify_target_migration_fail = (3, 0)
storage migrate_version_notify_targets = (4, 2)
storage migrate_and_notify_old_targets = (9, 4)

-- The component at which the accesses were counted, where they depend on one.
abbrev pub IsCounted : Call → Type 0
IsCounted _ = Unit {0}

pub estimated-le : (c : Call) → InRange c → estimated c ≤ 2_621_440
estimated-le send h = omega arith
estimated-le _ h = omega arith

-- The two functions that are given nearly the whole of a `u64`.
abbrev pub is_disabled : Call → Bool
is_disabled teleport_assets = true
is_disabled execute = true
is_disabled _ = false

module _ (W : Weights) ⦃D : AreDocumented W⦄ where
  -- In the documented ranges the proof size is the documented estimate: nothing saturates.
  pub proof_size-weight : (c : Call) → InRange c → W.proof_size (weight W c) ≡ estimated c
  unfolding weight
  proof_size-weight send h = simp weight_laws (omega (arith, saturate_of_le))
  proof_size-weight _ h = simp weight_laws (omega (arith, saturate_of_le))

  -- In the documented ranges, with storage as fast as documented, the execution takes at most a
  -- quarter of a second.
  pub ref_time-weight-le :
      D.read ≤ 25_000_000
      → D.write ≤ 100_000_000
      → (c : Call) → InRange c
      → is_disabled c ≡ false
      → W.ref_time (weight W c) ≤ 250_000_000_000
  unfolding weight
  ref_time-weight-le fast quick send h e = simp weight_laws (omega (arith, saturate-le))
  ref_time-weight-le fast quick teleport_assets h e = cc
  ref_time-weight-le fast quick reserve_transfer_assets h e =
      simp weight_laws (omega (arith, saturate-le))
  ref_time-weight-le fast quick execute h e = cc
  ref_time-weight-le fast quick force_xcm_version h e =
      simp weight_laws (omega (arith, saturate-le))
  ref_time-weight-le fast quick force_default_xcm_version h e =
      simp weight_laws (omega (arith, saturate-le))
  ref_time-weight-le fast quick force_subscribe_version_notify h e =
      simp weight_laws (omega (arith, saturate-le))
  ref_time-weight-le fast quick force_unsubscribe_version_notify h e =
      simp weight_laws (omega (arith, saturate-le))
  ref_time-weight-le fast quick force_suspension h e = simp weight_laws (omega (arith, saturate-le))
  ref_time-weight-le fast quick migrate_supported_version h e =
      simp weight_laws (omega (arith, saturate-le))
  ref_time-weight-le fast quick migrate_version_notifiers h e =
      simp weight_laws (omega (arith, saturate-le))
  ref_time-weight-le fast quick already_notified_target h e =
      simp weight_laws (omega (arith, saturate-le))
  ref_time-weight-le fast quick notify_current_targets h e =
      simp weight_laws (omega (arith, saturate-le))
  ref_time-weight-le fast quick notify_target_migration_fail h e =
      simp weight_laws (omega (arith, saturate-le))
  ref_time-weight-le fast quick migrate_version_notify_targets h e =
      simp weight_laws (omega (arith, saturate-le))
  ref_time-weight-le fast quick migrate_and_notify_old_targets h e =
      simp weight_laws (omega (arith, saturate-le))

  -- The other two never do.
  pub ref_time-weight_disabled :
      (c : Call) → is_disabled c ≡ true → 500_000_000_000 < W.ref_time (weight W c)
  unfolding weight
  ref_time-weight_disabled send e = cc
  ref_time-weight_disabled teleport_assets e = simp weight_laws (omega (arith, saturate_of_le))
  ref_time-weight_disabled reserve_transfer_assets e = cc
  ref_time-weight_disabled execute e = simp weight_laws (omega (arith, saturate_of_le))
  ref_time-weight_disabled force_xcm_version e = cc
  ref_time-weight_disabled force_default_xcm_version e = cc
  ref_time-weight_disabled force_subscribe_version_notify e = cc
  ref_time-weight_disabled force_unsubscribe_version_notify e = cc
  ref_time-weight_disabled force_suspension e = cc
  ref_time-weight_disabled migrate_supported_version e = cc
  ref_time-weight_disabled migrate_version_notifiers e = cc
  ref_time-weight_disabled already_notified_target e = cc
  ref_time-weight_disabled notify_current_targets e = cc
  ref_time-weight_disabled notify_target_migration_fail e = cc
  ref_time-weight_disabled migrate_version_notify_targets e = cc
  ref_time-weight_disabled migrate_and_notify_old_targets e = cc

-- At the counted component the weight charges the documented accesses, no more and no fewer.
pub weight-counting : (c : Call) → IsCounted c → weight counting c ≡ storage c
unfolding weight
weight-counting send h = ground arith
weight-counting _ h = ground arith
