-- ===== src/Xcm/Pallet/Laws.antt =====
-- What an origin of this chain can do through `pallet_xcm`, and the account that its location is.
use parachain.Base.{
  ◌≡◌, refl, sym, ◌∙◌, ap, ◌↔◌, ◌⊎◌, inl, inr, true, false, Option, none, some, ok, if◌then◌else◌,
  arith, ◌≤◌, ◌<◌, Bool-cases,
}
use mathlib.Core.Option.{some-injective}
use parachain.Xcm.Location.{
  NetworkId, kusama, NetworkId-discrete, x1, account_id32, MultiLocation, here_location,
}
use parachain.Xcm.Accounts.{account_id_to_multi_location}
use parachain.Xcm.Origins.{
  AccountId, RuntimeOrigin, root, signed, native, Converters, location_to_account_id,
  xcm_origin_to_transact_dispatch_origin,
}
use parachain.Xcm.Origins.Places.{AreDocumented, in_network, place_of, account_of, alias}
use parachain.Xcm.Origins.Laws.{location_to_account_id_lem, origin_rights}
use parachain.Xcm.Pallet.{
  LocateOrigin, no_location, Filter, PalletConfig, XcmCall, send, execute, teleport_assets,
  reserve_transfer_assets, Outside, local_origin_to_location, shell_local_origin_to_location,
  pallet_config, shell_pallet_config,
}
use parachain.Weights.Interface.{Weights}
use parachain.Weights.Interface.Laws.{AreDocumented as WeightsAreDocumented}
use parachain.Weights.Xcm.Laws as XcmWeights

abbrev pub account_location : NetworkId → AccountId → MultiLocation
account_location network id = record { parents = 0; interior = x1 (account_id32 (some network) id) }

-- What is documented: an account is located by its bytes and the network; root is let through as
-- this chain where the conversion fails.
abbrev pub located : NetworkId → LocateOrigin
located network (signed id) = some (account_location network id)
located network _ = none

abbrev pub or_root : Option MultiLocation → RuntimeOrigin → Option MultiLocation
or_root (some l) origin = some l
or_root none root = some here_location
or_root none _ = none

-- A call goes on as the location of its origin, if its filter lets it.
abbrev pub filtered : Filter → Option MultiLocation → Option MultiLocation
filtered f none = none
filtered f (some l) = if f l then some l else none

abbrev pub checked : PalletConfig → XcmCall → LocateOrigin
checked P send origin = P.send_xcm_origin origin
checked P execute origin = filtered P.xcm_execute_filter (P.execute_xcm_origin origin)
checked P teleport_assets origin = filtered P.xcm_teleport_filter (P.execute_xcm_origin origin)
checked P reserve_transfer_assets origin =
    filtered P.xcm_reserve_transfer_filter (P.execute_xcm_origin origin)

pub record IsDocumented (O : Outside) : Type 0 where
  pub signed_lem :
      (network : NetworkId) (origin : RuntimeOrigin)
      → O.signed_to_account_id32 network origin ≡ located network origin
  pub ensure_lem :
      (f : LocateOrigin) (origin : RuntimeOrigin)
      → O.ensure_xcm_origin f origin ≡ or_root (f origin) origin
  pub passed_lem :
      (P : PalletConfig) (c : XcmCall) (origin : RuntimeOrigin)
      → O.passed P c origin ≡ checked P c origin

-- The weight function of a call.
abbrev pub weight_function : XcmCall → XcmWeights.Call
weight_function send = XcmWeights.send
weight_function execute = XcmWeights.execute
weight_function teleport_assets = XcmWeights.teleport_assets
weight_function reserve_transfer_assets = XcmWeights.reserve_transfer_assets

-- Who passes: root sends as this chain, root and accounts transfer reserves, and nobody does the rest.
abbrev pub passes_as : XcmCall → LocateOrigin
passes_as send origin = or_root none origin
passes_as reserve_transfer_assets origin = or_root (located kusama origin) origin
passes_as _ origin = none

filtered-none : (o : Option MultiLocation) → filtered (λ _. false) o ≡ none
filtered-none none = refl
filtered-none (some l) = refl

filtered-all : (o : Option MultiLocation) → filtered (λ _. true) o ≡ o
filtered-all none = refl
filtered-all (some l) = refl

module _ (O : Outside) (D : IsDocumented O) where
  passed_lem :
      (c : XcmCall) (origin : RuntimeOrigin)
      → O.passed (pallet_config O) c origin ≡ passes_as c origin
  unfolding pallet_config
  passed_lem send origin =
      D.passed_lem (pallet_config O) send origin ∙ D.ensure_lem no_location origin
  passed_lem execute origin = D.passed_lem (pallet_config O) execute origin ∙ filtered-none _
  passed_lem teleport_assets origin =
      D.passed_lem (pallet_config O) teleport_assets origin ∙ filtered-none _
  passed_lem reserve_transfer_assets origin =
      D.passed_lem (pallet_config O) reserve_transfer_assets origin
      ∙ filtered-all _
      ∙ D.ensure_lem _ origin
      ∙ ap (λ l. or_root l origin) (D.signed_lem kusama origin)

passes_as_iff :
    (c : XcmCall) (origin : RuntimeOrigin) (l : MultiLocation)
    → (passes_as c origin ≡ some l) ↔ (
        (((c ≡ send) ⊎ (c ≡ reserve_transfer_assets)) × (origin ≡ root) × (l ≡ here_location))
        ⊎ ((c ≡ reserve_transfer_assets)
            × ((id : AccountId) × (origin ≡ signed id) × (l ≡ account_location kusama id))))
passes_as_iff send root l =
    (λ e. inl (inl refl, refl, sym (some-injective _ _ e)), λ h. ground arith)
passes_as_iff send origin l = ground arith
passes_as_iff execute origin l = ground arith
passes_as_iff teleport_assets origin l = ground arith
passes_as_iff reserve_transfer_assets origin l = ground arith

weight_function-InRange : (c : XcmCall) → XcmWeights.InRange (weight_function c)
weight_function-InRange send = tt
weight_function-InRange _ = tt

-- The calls of which the weight is set to nearly the whole of a `u64` are those that nobody passes.
disabled_iff :
    (c : XcmCall)
    → (XcmWeights.is_disabled (weight_function c) ≡ true)
      ↔ ((origin : RuntimeOrigin) → passes_as c origin ≡ none)
disabled_iff send = (λ e. cc, λ h. let absent : some here_location ≡ none = h root in cc)
disabled_iff execute = (λ e origin. refl, λ h. refl)
disabled_iff teleport_assets = (λ e origin. refl, λ h. refl)
disabled_iff reserve_transfer_assets =
    (λ e. cc, λ h. let absent : some here_location ≡ none = h root in cc)

-- With storage as fast as documented, the weight of one of these calls is more than a whole block has
-- exactly if it is set to nearly the whole of a `u64`.
too_heavy_iff :
    (W : Weights) (R : WeightsAreDocumented W)
    → R.read ≤ 25_000_000
    → R.write ≤ 100_000_000
    → (c : XcmCall)
    → (500_000_000_000 < W.ref_time (XcmWeights.weight W (weight_function c)))
      ↔ (XcmWeights.is_disabled (weight_function c) ≡ true)
too_heavy_iff W R fast quick c = elim (Bool-cases (XcmWeights.is_disabled (weight_function c))) [
  | inl off ↦ (λ h. off, λ e. XcmWeights.ref_time-weight_disabled W ⦃D = R⦄ (weight_function c) off)
  | inr on ↦
      let light =
        XcmWeights.ref_time-weight-le W ⦃D = R⦄ fast quick (weight_function c)
          (weight_function-InRange c) on in
      (λ h. absurd (omega (arith, h, light)), λ e. cc)
]

module _ (O : Outside) (D : IsDocumented O) where
  -- Of the calls of `pallet_xcm` for origins of this chain, root alone can send, as this chain; root and
  -- every account can transfer reserves, an account as its own location on the network; and nobody can
  -- execute a message or teleport. With storage as fast as documented, those two are the calls of
  -- which the weight function gives more execution time than the half of a second that a block has.
  -- The shell lets through what the full runtime does.
  pub passed_iff :
      (W : Weights) (R : WeightsAreDocumented W)
      → R.read ≤ 25_000_000
      → R.write ≤ 100_000_000
      → (c : XcmCall) (origin : RuntimeOrigin) (l : MultiLocation)
      → ((O.passed (pallet_config O) c origin ≡ some l) ↔ (
          (((c ≡ send) ⊎ (c ≡ reserve_transfer_assets)) × (origin ≡ root) × (l ≡ here_location))
          ⊎ ((c ≡ reserve_transfer_assets)
              × ((id : AccountId) × (origin ≡ signed id) × (l ≡ account_location kusama id)))))
        × ((500_000_000_000 < W.ref_time (XcmWeights.weight W (weight_function c)))
            ↔ ((o : RuntimeOrigin) → O.passed (pallet_config O) c o ≡ none))
        × (O.passed (shell_pallet_config O) c origin ≡ O.passed (pallet_config O) c origin)
  unfolding shell_pallet_config pallet_config shell_local_origin_to_location
      local_origin_to_location
  passed_iff W R fast quick c origin l =
      let (refuses, disabled) = disabled_iff c in
      let (is_off, off_heavy) = too_heavy_iff W R fast quick c in
      (
        rw (passed_lem O D c origin) (passes_as_iff c origin l),
        (
          λ h o. passed_lem O D c o ∙ refuses (is_off h) o,
          λ h. off_heavy (disabled (λ o. sym (passed_lem O D c o) ∙ h o)),
        ),
        refl,
      )

  own_location :
      (origin : RuntimeOrigin) (l : MultiLocation)
      → local_origin_to_location O origin ≡ some l
      → (id : AccountId) × (origin ≡ signed id) × (l ≡ account_location kusama id)
  unfolding local_origin_to_location
  own_location (signed id) l e =
      (id, refl, sym (some-injective _ _ (sym (D.signed_lem kusama (signed id)) ∙ e)))
  own_location origin l e =
      absurd (let absent : none ≡ some l = sym (D.signed_lem kusama origin) ∙ e in cc)

alias_own : (id : AccountId) → alias kusama (place_of (account_location kusama id)) ≡ some id
unfolding in_network NetworkId-discrete
alias_own id = refl

module _ (O : Outside) (D : IsDocumented O) (C : Converters) (E : AreDocumented C) where
  -- An origin that has a location as a local origin is a signed one, and the location is read back as
  -- it: it converts to that account's id, to no other, and asks natively as what it is. The location that xtokens gives an
  -- account, without a network, converts to the account too.
  pub local_origin_roundtrip :
      (origin : RuntimeOrigin) (l : MultiLocation) (id : AccountId)
      → local_origin_to_location O origin ≡ some l
      → ((own : AccountId) × (origin ≡ signed own) × (location_to_account_id C l ≡ some own))
        × ((location_to_account_id C l ≡ some id) ↔ (origin ≡ signed id))
        × (xcm_origin_to_transact_dispatch_origin C l native ≡ ok origin)
        × (location_to_account_id C (account_id_to_multi_location id) ≡ some id)
  unfolding account_id_to_multi_location in_network NetworkId-discrete
  local_origin_roundtrip origin l id e =
      let (own, is_own, at) = own_location O D origin l e in
      let converts : location_to_account_id C l ≡ some own =
        location_to_account_id_lem C E l
        ∙ ap (λ m. account_of E.parent_account E.sibling_account (place_of m)) at in
      let (_, _, _, (_, signs), _) = origin_rights C E l native own 0 in
      (
        (own, is_own, converts),
        (
          λ h. is_own ∙ ap signed (some-injective _ _ (sym converts ∙ h)),
          λ h. let same : signed own ≡ signed id = sym is_own ∙ h in converts ∙ ap some cc,
        ),
        signs (inr (refl, ap (λ m. alias kusama (place_of m)) at ∙ alias_own own))
            ∙ ap ok (sym is_own),
        location_to_account_id_lem C E (account_id_to_multi_location id),
      )
