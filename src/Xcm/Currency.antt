-- ===== src/Xcm/Currency.antt =====
-- `CurrencyIdConvert` of polkadot-parachains/integritee-runtime/src/xcm_config.rs. The chain's own
-- id, `ParachainInfo::parachain_id()`, is a storage value of a pallet outside the repository, hence
-- a parameter.
pub mod Laws
use parachain.Base.{
  ℕ, ◌≡◌, refl, Bool, true, false, ◌&&◌, Option, none, some, List, [], ◌∷◌, ◌==◌, if◌then◌else◌,
  holds,
}
use parachain.Xcm.Location.{
  Junction, para_chain, general_key, Junctions, here, x1, x2, deeper, MultiLocation, AssetId,
  concrete, abstract_id, MultiAsset, Junction-discrete, here_location,
}

-- The bytes of "TEER0000000000000000000000000000".
abbrev pub teer_key : List ℕ
teer_key =
    b'T' ∷ b'E' ∷ b'E' ∷ b'R' ∷ b'0' ∷ b'0' ∷ b'0' ∷ b'0' ∷ b'0' ∷ b'0' ∷ b'0' ∷ b'0' ∷ b'0' ∷ b'0'
    ∷ b'0' ∷ b'0' ∷ b'0' ∷ b'0' ∷ b'0' ∷ b'0' ∷ b'0' ∷ b'0' ∷ b'0' ∷ b'0' ∷ b'0' ∷ b'0' ∷ b'0'
    ∷ b'0' ∷ b'0' ∷ b'0' ∷ b'0' ∷ b'0' ∷ []

unfoldable pub teer_general_key : Junction
teer_general_key = general_key 4 teer_key

pub data CurrencyId : Type 0 where
  teer : CurrencyId

-- `SelfReserve`
unfoldable pub self_reserve : MultiLocation
self_reserve = record { parents = 0; interior = x1 teer_general_key }

-- `SelfLocation`
abbrev pub self_location : MultiLocation
self_location = here_location

is_teer_key : Junction → Bool
unfolding Junction-discrete
is_teer_key j = holds (Junction-discrete j teer_general_key)

-- The arm for `parents == 0`.
from_local : Junctions → Option CurrencyId
from_local (x1 junction) = if is_teer_key junction then some teer else none
from_local _ = none

module _ (self_para_id : ℕ) where
  -- `SelfLocationAbsolute`
  unfoldable pub self_location_absolute : MultiLocation
  self_location_absolute = record { parents = 1; interior = x1 (para_chain self_para_id) }

  -- `CurrencyId` to its location.
  unfoldable pub convert_id : CurrencyId → Option MultiLocation
  convert_id teer =
      some (record { parents = 1; interior = x2 (para_chain self_para_id) teer_general_key })

  -- The arm for `parents == 1`.
  from_sibling : Junctions → Option CurrencyId
  from_sibling (x2 (para_chain para_id) junction) =
      if is_teer_key junction && para_id == self_para_id then some teer else none
  from_sibling _ = none

  unfoldable pub convert_location : MultiLocation → Option CurrencyId
  unfolding from_sibling from_local is_teer_key
  convert_location location =
      if location.parents == 1
      then from_sibling location.interior
      else if location.parents == 0
      then from_local location.interior
      else none

  convert_asset_id : AssetId → Option CurrencyId
  convert_asset_id (concrete location) = convert_location location
  convert_asset_id (abstract_id _) = none

  unfoldable pub convert_asset : MultiAsset → Option CurrencyId
  unfolding convert_asset_id
  convert_asset asset = convert_asset_id asset.id
