-- ===== src/Xcm/Reserve.antt =====
-- `AbsoluteAndRelativeReserve` of polkadot-parachains/integritee-runtime/src/xcm_config.rs, over
-- the `RelativeReserveProvider` of the ORML library, which is a parameter.
use mathlib.Core.Option
use mathlib.Core.Option.{some-injective}
use parachain.Base.{
  ℕ, ◌≡◌, refl, sym, ◌∙◌, ◌≢◌, ◌↔◌, ◌⊎◌, inl, inr, ap, Option, none, some, if◌then◌else◌, holds,
  arith,
}
use parachain.Xcm.Location.{MultiLocation, MultiAsset, MultiLocation-discrete, here_location}
use parachain.Xcm.Currency.{self_location_absolute}

-- The closure that `reserve` maps over the relative reserve.
localise : MultiLocation → MultiLocation → MultiLocation
unfolding MultiLocation-discrete
localise absolute relative =
    if holds (MultiLocation-discrete relative absolute) then here_location else relative

module _ (relative_reserve : MultiAsset → Option MultiLocation) (absolute : MultiLocation) where
  unfoldable pub reserve : MultiAsset → Option MultiLocation
  unfolding localise
  reserve asset = Option.map (localise absolute) (relative_reserve asset)

localise_self : (l : MultiLocation) → localise l l ≡ here_location
unfolding localise
localise_self l =
    elim (MultiLocation-discrete l l)
      as (λ d. (if holds d then here_location else l) ≡ here_location) [
        | yes p ↦ refl
        | no n ↦ absurd (n refl)
      ]

localise_other : (absolute l : MultiLocation) → l ≢ absolute → localise absolute l ≡ l
unfolding localise
localise_other absolute l h =
    elim (MultiLocation-discrete l absolute) as (λ d. (if holds d then here_location else l) ≡ l) [
      | yes p ↦ absurd (h p)
      | no n ↦ refl
    ]

map-localise_iff :
    (o : Option MultiLocation) (self_para_id : ℕ) (location : MultiLocation)
    → let absolute = self_location_absolute self_para_id in
      (Option.map (localise absolute) o ≡ some location) ↔ (
        ((o ≡ some location) × (location ≢ absolute))
        ⊎ ((o ≡ some absolute) × (location ≡ here_location)))
map-localise_iff none p location = (λ h. cc, λ h. ground arith)
map-localise_iff (some l) p location = elim (MultiLocation-discrete l (self_location_absolute p)) [
  | yes e ↦
      rw (e, localise_self (self_location_absolute p))
        (
          λ h. inr (refl, sym (some-injective _ _ h)),
          λ h. elim h [
            | inl (same, other) ↦ absurd (other (sym (some-injective _ _ same)))
            | inr (_, at_home) ↦ ap some (sym at_home)
          ],
        )
  | no n ↦ rw (localise_other (self_location_absolute p) l n) (
    λ h. inl (h, λ k. n (some-injective _ _ h ∙ k)),
    λ h. elim h [
      | inl (same, other) ↦ same
      | inr (same, at_home) ↦ absurd (n (some-injective _ _ same))
    ],
  )
]

module _ (relative_reserve : MultiAsset → Option MultiLocation) (self_para_id : ℕ) where
  -- An asset has a location as its reserve exactly when the relative provider names that location
  -- and it is not the chain's own absolute one, or the provider names the chain's absolute location
  -- and the reserve is the local chain. So the absolute location itself is never a reserve, and a
  -- provider that finds none is followed.
  pub reserve_iff :
      (asset : MultiAsset) (location : MultiLocation)
      → (reserve relative_reserve (self_location_absolute self_para_id) asset ≡ some location) ↔ (
          ((relative_reserve asset ≡ some location)
            × (location ≢ self_location_absolute self_para_id))
          ⊎ ((relative_reserve asset ≡ some (self_location_absolute self_para_id))
              × (location ≡ here_location)))
  unfolding reserve
  reserve_iff asset = map-localise_iff (relative_reserve asset) self_para_id
