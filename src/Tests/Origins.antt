-- ===== src/Tests/Origins.antt =====
-- The rights of XCM origins and the reserves of assets, with converters, a filter and a provider that
-- are as documented.
use parachain.Base.{
  ℕ, ◌≡◌, refl, ◌↔◌, ◌⊎◌, ap, Bool, true, false, Option, some, none, List, [], ◌∷◌, ok, err, holds,
  ℕ_discrete,
}
use mathlib.Core.Option.{some-injective}
use parachain.Xcm.Location.{
  para_chain, general_key, x1, x2, MultiLocation, MultiLocation-discrete, concrete, MultiAsset,
  kusama, here_location, parent_location,
}
use parachain.Xcm.Currency
use parachain.Xcm.Reserve.{reserve}
use parachain.Xcm.Currency.{self_location, self_location_absolute, teer, convert_asset, teer_key}
use parachain.Xcm.Executor.{ReserveProvider, AssetFilter, is_reserve, shell_is_reserve}
use parachain.Xcm.Executor.Laws
use parachain.Xcm.Origins.{
  native, sovereign_account, superuser, AccountId, root, signed, relay, sibling_parachain,
  ConvertLocation, ConvertOrigin, Converters, location_to_account_id,
  xcm_origin_to_transact_dispatch_origin, shell_xcm_origin_to_transact_dispatch_origin,
}
use parachain.Xcm.Origins.Places.{
  sibling, place_of, preset, derived, alias, or_next, via_account, as_relay, as_sibling, as_root,
  as_signed, as_xcm, given, try_next, AreDocumented,
}
use parachain.Xcm.Origins.Laws.{origin_rights}

abbrev try_locations : List ConvertLocation → ConvertLocation
try_locations [] l = none
try_locations (c ∷ cs) l = or_next (c l) (try_locations cs l)

abbrev try_origins : List ConvertOrigin → ConvertOrigin
try_origins [] l k = err l
try_origins (c ∷ cs) l k = try_next (c l k) (λ l'. try_origins cs l' k)

abbrev sibling_bytes : ℕ → AccountId
sibling_bytes id = b's' ∷ id ∷ []

abbrev pub converters : Converters
converters = record {
  first_location = try_locations;
  parent_is_preset = λ l. preset (b'p' ∷ []) (place_of l);
  sibling_parachain_converts_via = λ l. derived sibling_bytes (place_of l);
  account_id32_aliases = λ network l. alias network (place_of l);
  first_origin = try_origins;
  sovereign_signed_via_location = λ f l k. given l (via_account (f l) k);
  relay_chain_as_native = λ o l k. given l (as_relay o (place_of l) k);
  sibling_parachain_as_native = λ l k. given l (as_sibling (place_of l) k);
  parent_as_superuser = λ l k. given l (as_root (place_of l) k);
  signed_account_id32_as_native = λ network l k. given l (as_signed network (place_of l) k);
  xcm_passthrough = λ l k. given l (as_xcm l k);
}

abbrev pub converters-AreDocumented : AreDocumented converters
converters-AreDocumented = record {
  parent_account = b'p' ∷ [];
  sibling_account = sibling_bytes;
  first_location_nil = λ l. refl;
  first_location_cons = λ c cs l. refl;
  parent_is_preset_lem = λ l. refl;
  sibling_converts_lem = λ l. refl;
  aliases_lem = λ network l. refl;
  first_origin_nil = λ l k. refl;
  first_origin_cons = λ c cs l k. refl;
  sovereign_lem = λ f l k. refl;
  relay_lem = λ o l k. refl;
  sibling_lem = λ l k. refl;
  superuser_lem = λ l k. refl;
  signed_lem = λ network l k. refl;
  passthrough_lem = λ l k. refl;
}

-- A sibling chain that asks for root is refused, and its own sovereign account is given.
abbrev pub sibling_2000 : MultiLocation
sibling_2000 = record { parents = 1; interior = x1 (para_chain 2000) }

sibling_superuser :
    xcm_origin_to_transact_dispatch_origin converters sibling_2000 superuser ≡ err sibling_2000
unfolding xcm_origin_to_transact_dispatch_origin location_to_account_id given
sibling_superuser = refl

sibling_sovereign :
    xcm_origin_to_transact_dispatch_origin converters sibling_2000 sovereign_account
    ≡ ok (signed (b's' ∷ 2000 ∷ []))
unfolding xcm_origin_to_transact_dispatch_origin location_to_account_id given
sibling_sovereign = refl

origin_rights_example :
    let o = xcm_origin_to_transact_dispatch_origin converters sibling_2000 native in
    ((o ≡ ok root) ↔ ((sibling_2000 ≡ parent_location) × (native ≡ superuser)))
    × ((o ≡ ok relay) ↔ ((sibling_2000 ≡ parent_location) × (native ≡ native)))
    × ((o ≡ ok (sibling_parachain 2000))
        ↔ ((place_of sibling_2000 ≡ sibling 2000) × (native ≡ native)))
    × ((o ≡ ok (signed (sibling_bytes 2000))) ↔ (
        ((native ≡ sovereign_account)
          × (location_to_account_id converters sibling_2000 ≡ some (sibling_bytes 2000)))
        ⊎ ((native ≡ native) × (alias kusama (place_of sibling_2000) ≡ some (sibling_bytes 2000)))))
    × (shell_xcm_origin_to_transact_dispatch_origin converters sibling_2000 native ≡ o)
origin_rights_example =
    origin_rights converters converters-AreDocumented sibling_2000 native (sibling_bytes 2000) 2000

-- A filter of native assets, and a provider of relative reserves.
abbrev pub same_location : Option MultiLocation → MultiLocation → Bool
same_location none origin = false
same_location (some l) origin = holds (MultiLocation-discrete l origin)

abbrev pub native_assets : ReserveProvider → AssetFilter
native_assets provider asset origin = same_location (provider asset) origin

abbrev pub relative_provider : ReserveProvider
relative_provider asset = Laws.chain_of asset.id

pub same_location_iff :
    (o : Option MultiLocation) (origin : MultiLocation)
    → (same_location o origin ≡ true) ↔ (o ≡ some origin)
same_location_iff none origin = (λ e. cc, λ e. cc)
same_location_iff (some l) origin =
    elim (MultiLocation-discrete l origin) as (λ d. (holds d ≡ true) ↔ (some l ≡ some origin)) [
      | yes p ↦ (λ _. ap some p, λ _. refl)
      | no n ↦ (λ h. cc, λ e. absurd (n (some-injective _ _ e)))
    ]

abbrev pub assets-AreDocumented : Laws.AreDocumented native_assets relative_provider
assets-AreDocumented = record {
  multi_native_asset_iff = λ provider asset origin. same_location_iff (provider asset) origin;
  relative_reserve_lem = λ asset. refl;
}

abbrev own_asset : MultiAsset
own_asset = record {
  id = concrete (record { parents = 1; interior = x2 (para_chain 2015) (general_key 4 teer_key) });
  fun_code = 5;
}

own_asset-teer : convert_asset 2015 own_asset ≡ some teer
unfolding convert_asset Currency.convert_location Currency.teer_general_key ℕ_discrete
own_asset-teer = refl

own_reserve_example :
    (reserve relative_provider (self_location_absolute 2015) own_asset ≡ some self_location)
    × ((is_reserve native_assets relative_provider 2015 own_asset sibling_2000 ≡ true)
        ↔ (sibling_2000 ≡ here_location))
    × ((a : MultiAsset) (o : MultiLocation)
        → shell_is_reserve native_assets relative_provider 2015 a o
          ≡ is_reserve native_assets relative_provider 2015 a o)
own_reserve_example =
    Laws.own_reserve native_assets relative_provider assets-AreDocumented 2015 own_asset
      sibling_2000 own_asset-teer
