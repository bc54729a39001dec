-- ===== src/Xcm/Executor.antt =====
-- Which assets the XCM executor takes as backed by the chain that sends them: `IsReserve` of
-- `XcmExecutorConfig` in polkadot-parachains/integritee-runtime/src/xcm_config.rs and in the shell's
-- copy. `MultiNativeAsset` and `RelativeReserveProvider` are of the ORML library, hence parameters.
pub mod Laws
use parachain.Base.{ℕ, Bool, Option}
use parachain.Xcm.Location.{MultiLocation, MultiAsset}
use parachain.Xcm.Currency.{self_location_absolute}
use parachain.Xcm.Reserve.{reserve}
use parachain.Xcm.Shell

-- The trait `Reserve`, and `ContainsPair<MultiAsset, MultiLocation>`.
abbrev pub ReserveProvider : Type 0
ReserveProvider = MultiAsset → Option MultiLocation

abbrev pub AssetFilter : Type 0
AssetFilter = MultiAsset → MultiLocation → Bool

module _ (multi_native_asset : ReserveProvider → AssetFilter) (relative_reserve : ReserveProvider)
    (self_para_id : ℕ) where
  unfoldable pub is_reserve : AssetFilter
  is_reserve = multi_native_asset (reserve relative_reserve (self_location_absolute self_para_id))

  unfoldable pub shell_is_reserve : AssetFilter
  shell_is_reserve =
      multi_native_asset
        (Shell.reserve relative_reserve (Shell.self_location_absolute self_para_id))
