-- ===== src/Xcm/Executor/Laws.antt =====
-- The chain's own currency is never taken from another chain.
use parachain.Base.{
  ℕ, ◌≡◌, refl, sym, ◌∙◌, ◌≢◌, ◌↔◌, inl, inr, ap, true, Option, none, some, ◌==◌, if◌then◌else◌,
}
use mathlib.Core.Option.{some-injective}
use parachain.Xcm.Location.{
  Junction, para_chain, Junctions, here, x1, x2, deeper, MultiLocation, AssetId, concrete,
  abstract_id, MultiAsset, here_location, parent_location,
}
use parachain.Xcm.Currency.{
  teer, teer_general_key, self_reserve, self_location, self_location_absolute, convert_id,
  convert_asset,
}
use parachain.Xcm.Currency.Laws.{convert_asset_iff}
use parachain.Xcm.Reserve.{reserve, reserve_iff}
use parachain.Xcm.Shell
use parachain.Xcm.Executor.{ReserveProvider, AssetFilter, is_reserve, shell_is_reserve}

abbrev pub first_interior : Junctions → Option Junction
first_interior here = none
first_interior (x1 j) = some j
first_interior (x2 j _) = some j
first_interior (deeper j _ _ _) = some j

-- The chain that a location names, seen from here: this chain, the relay chain, or a sibling or child.
abbrev pub chain_at : ℕ → Option Junction → Option MultiLocation
chain_at parents (some (para_chain id)) =
    if parents == 1
    then some (record { parents = 1; interior = x1 (para_chain id) })
    else if parents == 0
    then some (record { parents = 0; interior = x1 (para_chain id) })
    else none
chain_at parents _ =
    if parents == 0 then some here_location else if parents == 1 then some parent_location else none

abbrev pub chain_of : AssetId → Option MultiLocation
chain_of (concrete l) = chain_at l.parents (first_interior l.interior)
chain_of (abstract_id _) = none

pub record AreDocumented (f : ReserveProvider → AssetFilter) (r : ReserveProvider) : Type 0 where
  pub multi_native_asset_iff :
      (provider : ReserveProvider) (asset : MultiAsset) (origin : MultiLocation)
      → (f provider asset origin ≡ true) ↔ (provider asset ≡ some origin)
  pub relative_reserve_lem : (asset : MultiAsset) → r asset ≡ chain_of asset.id

module _ (f : ReserveProvider → AssetFilter) (r : ReserveProvider) (D : AreDocumented f r)
    (self_para_id : ℕ) where
  reserved_at :
      (asset : MultiAsset) (location : MultiLocation)
      → reserve r (self_location_absolute self_para_id) asset ≡ some location
      → (origin : MultiLocation)
      → (is_reserve f r self_para_id asset origin ≡ true) ↔ (origin ≡ location)
  unfolding is_reserve
  reserved_at asset location e origin =
      let provider = reserve r (self_location_absolute self_para_id) in
      let (accepted, accepts) = D.multi_native_asset_iff provider asset origin in
      (λ h. some-injective _ _ (sym (accepted h) ∙ e), λ h. accepts (e ∙ ap some (sym h)))

  own_reserve_at :
      (asset : MultiAsset)
      → convert_asset self_para_id asset ≡ some teer
      → reserve r (self_location_absolute self_para_id) asset ≡ some here_location
  unfolding self_location_absolute convert_id self_reserve teer_general_key
  own_reserve_at asset own =
      let found = reserve_iff r self_para_id asset here_location in
      let (location, same, place) = (convert_asset_iff self_para_id asset).0 own in
      let named = D.relative_reserve_lem asset ∙ ap chain_of same in
      elim place [
        | inl absolute ↦ found.1 (
            inr (named ∙ ap (λ l. chain_of (concrete l)) (sym (some-injective _ _ absolute)), refl))
        | inr relative ↦ found.1 (inl (named ∙ ap (λ l. chain_of (concrete l)) relative, λ e. cc))
      ]

  sibling_reserve_at :
      (asset : MultiAsset) (id : ℕ) (key : Junction)
      → asset.id ≡ concrete (record { parents = 1; interior = x2 (para_chain id) key })
      → id ≢ self_para_id
      → reserve r (self_location_absolute self_para_id) asset
        ≡ some (record { parents = 1; interior = x1 (para_chain id) })
  unfolding self_location_absolute
  sibling_reserve_at asset id key same other =
      (reserve_iff r self_para_id asset (record { parents = 1; interior = x1 (para_chain id) })).1
        (inl (D.relative_reserve_lem asset ∙ ap chain_of same, λ e. other (cc)))

  -- An asset that converts to the chain's own currency has this chain as its reserve, as `SelfLocation`
  -- names it, and is taken as backed by its sender only from the local chain: neither the relay chain nor
  -- a sibling can make the currency appear here. Both runtimes take the same assets from the same
  -- origins.
  pub own_reserve :
      (asset : MultiAsset) (origin : MultiLocation)
      → convert_asset self_para_id asset ≡ some teer
      → (reserve r (self_location_absolute self_para_id) asset ≡ some self_location)
        × ((is_reserve f r self_para_id asset origin ≡ true) ↔ (origin ≡ here_location))
        × ((a : MultiAsset) (o : MultiLocation)
            → shell_is_reserve f r self_para_id a o ≡ is_reserve f r self_para_id a o)
  unfolding is_reserve shell_is_reserve Shell.reserve reserve Shell.self_location_absolute
      self_location_absolute
  own_reserve asset origin own =
      let home = own_reserve_at asset own in
      (home, reserved_at asset here_location home origin, λ a o. refl)

  -- An asset of a sibling chain is taken as backed by that chain, and by no other.
  pub sibling_reserve :
      (asset : MultiAsset) (id : ℕ) (key : Junction) (origin : MultiLocation)
      → asset.id ≡ concrete (record { parents = 1; interior = x2 (para_chain id) key })
      → id ≢ self_para_id
      → (is_reserve f r self_para_id asset origin ≡ true)
        ↔ (origin ≡ record { parents = 1; interior = x1 (para_chain id) })
  sibling_reserve asset id key origin same other =
      reserved_at asset _ (sibling_reserve_at asset id key same other) origin
