-- ===== src/Xcm/Pallet.antt =====
-- `LocalOriginToLocation` and the configuration of `pallet_xcm` in
-- polkadot-parachains/integritee-runtime/src/xcm_config.rs, with the shell's copy: who may send,
-- execute and transfer. `EnsureXcmOrigin`, `SignedToAccountId32` and the pallet itself are outside the
-- repository, hence parameters.
pub mod Laws
use parachain.Base.{Bool, true, false, Option, none}
use parachain.Xcm.Location.{NetworkId, MultiLocation}
use parachain.Xcm.Accounts.{relay_network, shell_relay_network}
use parachain.Xcm.Origins.{RuntimeOrigin}

-- The traits `TryConvert<RuntimeOrigin, MultiLocation>` and `EnsureOrigin`, as far as they succeed.
abbrev pub LocateOrigin : Type 0
LocateOrigin = RuntimeOrigin → Option MultiLocation

-- The conversion `()`, and the filters `Nothing` and `Everything` on what is sent, whatever it is.
abbrev pub no_location : LocateOrigin
no_location origin = none

abbrev pub Filter : Type 0
Filter = MultiLocation → Bool

abbrev pub nothing : Filter
nothing origin = false

abbrev pub everything : Filter
everything origin = true

pub record PalletConfig : Type 0 where
  pub send_xcm_origin : LocateOrigin
  pub execute_xcm_origin : LocateOrigin
  pub xcm_execute_filter : Filter
  pub xcm_teleport_filter : Filter
  pub xcm_reserve_transfer_filter : Filter

-- The calls of the pallet that are open to an origin of this chain.
pub data XcmCall : Type 0 where
  send execute teleport_assets reserve_transfer_assets : XcmCall

pub record Outside : Type 0 where
  pub ensure_xcm_origin : LocateOrigin → LocateOrigin
  pub signed_to_account_id32 : NetworkId → LocateOrigin
  -- The location as which the pallet goes on with a call, once its checks of the origin and its filter
  -- are passed.
  pub passed : PalletConfig → XcmCall → LocateOrigin

module _ (O : Outside) where
  unfoldable pub local_origin_to_location : LocateOrigin
  local_origin_to_location = O.signed_to_account_id32 relay_network

  unfoldable pub shell_local_origin_to_location : LocateOrigin
  shell_local_origin_to_location = O.signed_to_account_id32 shell_relay_network

  unfoldable pub pallet_config : PalletConfig
  unfolding local_origin_to_location
  pallet_config = record {
    send_xcm_origin = O.ensure_xcm_origin no_location;
    execute_xcm_origin = O.ensure_xcm_origin local_origin_to_location;
    xcm_execute_filter = nothing;
    xcm_teleport_filter = nothing;
    xcm_reserve_transfer_filter = everything;
  }

  unfoldable pub shell_pallet_config : PalletConfig
  unfolding shell_local_origin_to_location
  shell_pallet_config = record {
    send_xcm_origin = O.ensure_xcm_origin no_location;
    execute_xcm_origin = O.ensure_xcm_origin shell_local_origin_to_location;
    xcm_execute_filter = nothing;
    xcm_teleport_filter = nothing;
    xcm_reserve_transfer_filter = everything;
  }
