-- ===== src/Weights/Xcm/Storage.antt =====
-- The storage accesses and proof sizes that the comments of
-- polkadot-parachains/integritee-runtime/src/weights/pallet_xcm.rs document.
use parachain.Base.{◌≤◌, ◌≡◌, Bool, true, List, [], ◌∷◌, arith}
use parachain.Weights.Storage.{Access, bounded, skipped, total, is_bounded, proof_of}
use parachain.Weights.Xcm.Laws as Calls

abbrev send_accesses : List Access
send_accesses =
    skipped "PolkadotXcm SupportedVersion" 1 0
    ∷ skipped "PolkadotXcm VersionDiscoveryQueue" 1 1
    ∷ skipped "PolkadotXcm SafeXcmVersion" 1 0
    ∷ skipped "ParachainSystem HostConfiguration" 1 0
    ∷ skipped "ParachainSystem PendingUpwardMessages" 1 1
    ∷ []

abbrev teleport_assets_accesses : List Access
teleport_assets_accesses = skipped "Benchmark Override" 0 0 ∷ []

abbrev reserve_transfer_assets_accesses : List Access
reserve_transfer_assets_accesses = bounded "ParachainInfo ParachainId" 1 0 4 499 ∷ []

abbrev execute_accesses : List Access
execute_accesses = skipped "Benchmark Override" 0 0 ∷ []

abbrev force_xcm_version_accesses : List Access
force_xcm_version_accesses = skipped "PolkadotXcm SupportedVersion" 0 1 ∷ []

abbrev force_default_xcm_version_accesses : List Access
force_default_xcm_version_accesses = skipped "PolkadotXcm SafeXcmVersion" 0 1 ∷ []

abbrev force_subscribe_version_notify_accesses : List Access
force_subscribe_version_notify_accesses =
    skipped "PolkadotXcm VersionNotifiers" 1 1
    ∷ skipped "PolkadotXcm QueryCounter" 1 1
    ∷ skipped "PolkadotXcm SupportedVersion" 1 0
    ∷ skipped "PolkadotXcm VersionDiscoveryQueue" 1 1
    ∷ skipped "PolkadotXcm SafeXcmVersion" 1 0
    ∷ skipped "ParachainSystem HostConfiguration" 1 0
    ∷ skipped "ParachainSystem PendingUpwardMessages" 1 1
    ∷ skipped "PolkadotXcm Queries" 0 1
    ∷ []

abbrev force_unsubscribe_version_notify_accesses : List Access
force_unsubscribe_version_notify_accesses =
    skipped "PolkadotXcm VersionNotifiers" 1 1
    ∷ skipped "PolkadotXcm SupportedVersion" 1 0
    ∷ skipped "PolkadotXcm VersionDiscoveryQueue" 1 1
    ∷ skipped "PolkadotXcm SafeXcmVersion" 1 0
    ∷ skipped "ParachainSystem HostConfiguration" 1 0
    ∷ skipped "ParachainSystem PendingUpwardMessages" 1 1
    ∷ skipped "PolkadotXcm Queries" 0 1
    ∷ []

abbrev force_suspension_accesses : List Access
force_suspension_accesses = skipped "PolkadotXcm XcmExecutionSuspended" 0 1 ∷ []

abbrev migrate_supported_version_accesses : List Access
migrate_supported_version_accesses = skipped "PolkadotXcm SupportedVersion" 4 2 ∷ []

abbrev migrate_version_notifiers_accesses : List Access
migrate_version_notifiers_accesses = skipped "PolkadotXcm VersionNotifiers" 4 2 ∷ []

abbrev already_notified_target_accesses : List Access
already_notified_target_accesses = skipped "PolkadotXcm VersionNotifyTargets" 5 0 ∷ []

abbrev notify_current_targets_accesses : List Access
notify_current_targets_accesses =
    skipped "PolkadotXcm VersionNotifyTargets" 2 1
    ∷ skipped "PolkadotXcm SupportedVersion" 1 0
    ∷ skipped "PolkadotXcm VersionDiscoveryQueue" 1 1
    ∷ skipped "PolkadotXcm SafeXcmVersion" 1 0
    ∷ skipped "ParachainSystem HostConfiguration" 1 0
    ∷ skipped "ParachainSystem PendingUpwardMessages" 1 1
    ∷ []

abbrev notify_target_migration_fail_accesses : List Access
notify_target_migration_fail_accesses = skipped "PolkadotXcm VersionNotifyTargets" 3 0 ∷ []

abbrev migrate_version_notify_targets_accesses : List Access
migrate_version_notify_targets_accesses = skipped "PolkadotXcm VersionNotifyTargets" 4 2 ∷ []

abbrev migrate_and_notify_old_targets_accesses : List Access
migrate_and_notify_old_targets_accesses =
    skipped "PolkadotXcm VersionNotifyTargets" 4 2
    ∷ skipped "PolkadotXcm SupportedVersion" 1 0
    ∷ skipped "PolkadotXcm VersionDiscoveryQueue" 1 1
    ∷ skipped "PolkadotXcm SafeXcmVersion" 1 0
    ∷ skipped "ParachainSystem HostConfiguration" 1 0
    ∷ skipped "ParachainSystem PendingUpwardMessages" 1 1
    ∷ []

abbrev pub accesses : Calls.Call → List Access
accesses Calls.send = send_accesses
accesses Calls.teleport_assets = teleport_assets_accesses
accesses Calls.reserve_transfer_assets = reserve_transfer_assets_accesses
accesses Calls.execute = execute_accesses
accesses Calls.force_xcm_version = force_xcm_version_accesses
accesses Calls.force_default_xcm_version = force_default_xcm_version_accesses
accesses Calls.force_subscribe_version_notify = force_subscribe_version_notify_accesses
accesses Calls.force_unsubscribe_version_notify = force_unsubscribe_version_notify_accesses
accesses Calls.force_suspension = force_suspension_accesses
accesses Calls.migrate_supported_version = migrate_supported_version_accesses
accesses Calls.migrate_version_notifiers = migrate_version_notifiers_accesses
accesses Calls.already_notified_target = already_notified_target_accesses
accesses Calls.notify_current_targets = notify_current_targets_accesses
accesses Calls.notify_target_migration_fail = notify_target_migration_fail_accesses
accesses Calls.migrate_version_notify_targets = migrate_version_notify_targets_accesses
accesses Calls.migrate_and_notify_old_targets = migrate_and_notify_old_targets_accesses

-- Where the component, if any, is the one that the accesses were counted at.
abbrev pub IsAtTop : Calls.Call → Type 0
IsAtTop c = Calls.IsCounted c

-- A function whose documented estimate does not depend on a component.
abbrev pub is_fixed : Calls.Call → Bool
is_fixed _ = true

pub total-accesses : (c : Calls.Call) → total (accesses c) ≡ Calls.storage c
total-accesses c = ground arith

pub proof_of-accesses-le :
    (c : Calls.Call)
    → is_bounded (accesses c) ≡ true
    → IsAtTop c
    → proof_of (accesses c) ≤ Calls.estimated c
proof_of-accesses-le c b h = ground arith

pub proof_of-accesses :
    (c : Calls.Call)
    → is_bounded (accesses c) ≡ true
    → is_fixed c ≡ true
    → proof_of (accesses c) ≡ Calls.estimated c
proof_of-accesses c b e = ground arith
