-- ===== src/Xcm/Currency/Laws.antt =====
-- Which locations and assets count as the chain's own currency.
use parachain.Base.{ℕ, ◌≡◌, refl, ◌↔◌, ◌⊎◌, inl, true, some, arith, holds}
use parachain.Xcm.Location.{
  Junction, para_chain, Junctions, x1, x2, MultiLocation, AssetId, concrete, abstract_id,
  MultiAsset, Junction-discrete,
}
use parachain.Xcm.Currency.{
  CurrencyId, teer, teer_general_key, self_reserve, is_teer_key, convert_id, from_sibling,
  from_local, convert_location, convert_asset_id, convert_asset,
}

is_teer_key_iff : (j : Junction) → (is_teer_key j ≡ true) ↔ (j ≡ teer_general_key)
unfolding is_teer_key
is_teer_key_iff j =
    elim (Junction-discrete j teer_general_key)
      as (λ d. (holds d ≡ true) ↔ (j ≡ teer_general_key)) [
        | yes p ↦ (λ _. p, λ _. refl)
        | no n ↦ (λ h. cc, λ p. absurd (n p))
      ]

-- A sibling's view names the currency exactly when it is this chain and the key.
from_sibling_iff :
    (self_para_id : ℕ) (i : Junctions)
    → (from_sibling self_para_id i ≡ some teer)
      ↔ (i ≡ x2 (para_chain self_para_id) teer_general_key)
unfolding from_sibling
from_sibling_iff self_para_id (x2 (para_chain q) j) = ground (arith, is_teer_key_iff j)
from_sibling_iff self_para_id i = ground arith

from_local_iff : (i : Junctions) → (from_local i ≡ some teer) ↔ (i ≡ x1 teer_general_key)
unfolding from_local
from_local_iff (x1 j) = ground (arith, is_teer_key_iff j)
from_local_iff i = ground arith

-- Exactly two locations convert to the currency: the one that the currency converts to, and
-- `SelfReserve`. All others convert to nothing.
pub convert_location_iff :
    (self_para_id : ℕ) (location : MultiLocation)
    → (convert_location self_para_id location ≡ some teer)
      ↔ ((convert_id self_para_id teer ≡ some location) ⊎ (location ≡ self_reserve))
unfolding convert_id convert_location self_reserve
convert_location_iff self_para_id location =
    ground
      (arith, from_sibling_iff self_para_id location.interior, from_local_iff location.interior)

convert_asset_id_iff :
    (self_para_id : ℕ) (id : AssetId)
    → (convert_asset_id self_para_id id ≡ some teer) ↔ (
        (location : MultiLocation) × (id ≡ concrete location)
        × ((convert_id self_para_id teer ≡ some location) ⊎ (location ≡ self_reserve)))
unfolding convert_asset_id
convert_asset_id_iff self_para_id (concrete l) = (
  λ h. (l, refl, (convert_location_iff self_para_id l).0 h),
  λ (l', e, d). ground (arith, (convert_location_iff self_para_id l').1 d),
)
convert_asset_id_iff self_para_id (abstract_id k) = (λ h. cc, λ (l', e, d). cc)

-- An asset converts to the currency exactly when its id is a concrete location that is the
-- currency's own or `SelfReserve`; the amount plays no part, and an abstract id is refused.
pub convert_asset_iff :
    (self_para_id : ℕ) (asset : MultiAsset)
    → (convert_asset self_para_id asset ≡ some teer) ↔ (
        (location : MultiLocation) × (asset.id ≡ concrete location)
        × ((convert_id self_para_id teer ≡ some location) ⊎ (location ≡ self_reserve)))
unfolding convert_asset
convert_asset_iff self_para_id asset = convert_asset_id_iff self_para_id asset.id

-- Whatever location the currency converts to, that location converts back to the currency.
pub convert_location-convert_id :
    (self_para_id : ℕ) (id : CurrencyId) {location : MultiLocation}
    → convert_id self_para_id id ≡ some location
    → convert_location self_para_id location ≡ some id
convert_location-convert_id self_para_id teer h = (convert_location_iff self_para_id _).1 (inl h)
