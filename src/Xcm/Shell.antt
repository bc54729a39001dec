-- ===== src/Xcm/Shell.antt =====
-- The shell runtime's own `CurrencyIdConvert` and `AbsoluteAndRelativeReserve`
-- (polkadot-parachains/shell-runtime/src/xcm_config.rs). A chain starts as a shell and is upgraded
-- to the full runtime, so the two have to read locations alike.
pub mod Laws
use mathlib.Core.Option
use parachain.Base.{ℕ, Bool, true, false, ◌&&◌, Option, none, some, ◌==◌, if◌then◌else◌, holds}
use parachain.Xcm.Location.{
  Junction, para_chain, general_key, Junctions, here, x1, x2, deeper, MultiLocation, AssetId,
  concrete, abstract_id, MultiAsset, Junction-discrete, MultiLocation-discrete, here_location,
}
use parachain.Xcm.Currency.{teer_key}

pub data CurrencyId : Type 0 where
  shell_teer : CurrencyId

unfoldable pub teer_general_key : Junction
teer_general_key = general_key 4 teer_key

unfoldable pub self_reserve : MultiLocation
unfolding teer_general_key
self_reserve = record { parents = 0; interior = x1 teer_general_key }

is_teer_key : Junction → Bool
unfolding Junction-discrete
is_teer_key j = holds (Junction-discrete j teer_general_key)

-- The arm for `parents == 0`.
from_local : Junctions → Option CurrencyId
from_local (x1 junction) = if is_teer_key junction then some shell_teer else none
from_local _ = none

module _ (self_para_id : ℕ) where
  unfoldable pub self_location_absolute : MultiLocation
  self_location_absolute = record { parents = 1; interior = x1 (para_chain self_para_id) }

  unfoldable pub convert_id : CurrencyId → Option MultiLocation
  convert_id shell_teer =
      some (record { parents = 1; interior = x2 (para_chain self_para_id) teer_general_key })

  -- The arm for `parents == 1`.
  from_sibling : Junctions → Option CurrencyId
  from_sibling (x2 (para_chain para_id) junction) =
      if is_teer_key junction && para_id == self_para_id then some shell_teer else none
  from_sibling _ = none

  unfoldable pub convert_location : MultiLocation → Option CurrencyId
  unfolding from_sibling from_local is_teer_key
  convert_location location =
      if location.parents == 1
      then from_sibling location.interior
      else if location.parents == 0
      then from_local location.interior
      else none

  convert_asset_id : AssetId → Option CurrencyId
  convert_asset_id (concrete location) = convert_location location
  convert_asset_id (abstract_id _) = none

  unfoldable pub convert_asset : MultiAsset → Option CurrencyId
  unfolding convert_asset_id
  convert_asset asset = convert_asset_id asset.id

-- The closure that `reserve` maps over the relative reserve.
localise : MultiLocation → MultiLocation → MultiLocation
unfolding MultiLocation-discrete
localise absolute relative =
    if holds (MultiLocation-discrete relative absolute) then here_location else relative

module _ (relative_reserve : MultiAsset → Option MultiLocation) (absolute : MultiLocation) where
  unfoldable pub reserve : MultiAsset → Option MultiLocation
  unfolding localise
  reserve asset = Option.map (localise absolute) (relative_reserve asset)
