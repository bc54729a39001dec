-- ===== src/Tests/Pallet.antt =====
-- Local origins at `pallet_xcm`, as documented.
use parachain.Base.{arith, ◌<◌, ◌≡◌, ◌↔◌, ◌⊎◌, refl, [], ◌∷◌, none, some, ok}
use parachain.Xcm.Location.{kusama, here_location}
use parachain.Xcm.Accounts.{account_id_to_multi_location}
use parachain.Xcm.Origins.{
  AccountId, RuntimeOrigin, root, signed, native, location_to_account_id,
  xcm_origin_to_transact_dispatch_origin,
}
use parachain.Xcm.Pallet.{
  send, reserve_transfer_assets, teleport_assets, Outside, local_origin_to_location, pallet_config,
  shell_pallet_config,
}
use parachain.Xcm.Pallet.Laws.{
  account_location, located, or_root, checked, IsDocumented, weight_function, passed_iff,
  local_origin_roundtrip,
}
use parachain.Weights.Xcm.Laws as XcmWeights
use parachain.Tests.Weights.{rocks_db, documented}
use parachain.Tests.Origins.{converters, converters-AreDocumented}

abbrev outside : Outside
outside = record {
  ensure_xcm_origin = λ f origin. or_root (f origin) origin;
  signed_to_account_id32 = located;
  passed = checked;
}

abbrev outside-IsDocumented : IsDocumented outside
outside-IsDocumented = record {
  signed_lem = λ network origin. refl;
  ensure_lem = λ f origin. refl;
  passed_lem = λ P c origin. refl;
}

abbrev alice : AccountId
alice = b'a' ∷ []

alice_cannot_teleport : outside.passed (pallet_config outside) teleport_assets (signed alice) ≡ none
unfolding pallet_config local_origin_to_location
alice_cannot_teleport = refl

passed_iff_example :
    let c = reserve_transfer_assets in
    let l = account_location kusama alice in
    ((outside.passed (pallet_config outside) c (signed alice) ≡ some l) ↔ (
      (((c ≡ send) ⊎ (c ≡ reserve_transfer_assets)) × (signed alice ≡ root) × (l ≡ here_location))
      ⊎ ((c ≡ reserve_transfer_assets)
          × ((id : AccountId) × (signed alice ≡ signed id) × (l ≡ account_location kusama id)))))
    × ((500_000_000_000 < rocks_db.ref_time (XcmWeights.weight rocks_db (weight_function c)))
        ↔ ((o : RuntimeOrigin) → outside.passed (pallet_config outside) c o ≡ none))
    × (outside.passed (shell_pallet_config outside) c (signed alice)
        ≡ outside.passed (pallet_config outside) c (signed alice))
passed_iff_example =
    passed_iff outside outside-IsDocumented rocks_db documented (omega arith) (omega arith)
      reserve_transfer_assets (signed alice) (account_location kusama alice)

alice_located :
    local_origin_to_location outside (signed alice) ≡ some (account_location kusama alice)
unfolding local_origin_to_location
alice_located = refl

local_origin_roundtrip_example :
    let l = account_location kusama alice in
    ((own : AccountId) × (signed alice ≡ signed own)
      × (location_to_account_id converters l ≡ some own))
    × ((location_to_account_id converters l ≡ some alice) ↔ (signed alice ≡ signed alice))
    × (xcm_origin_to_transact_dispatch_origin converters l native ≡ ok (signed alice))
    × (location_to_account_id converters (account_id_to_multi_location alice) ≡ some alice)
local_origin_roundtrip_example =
    local_origin_roundtrip outside outside-IsDocumented converters converters-AreDocumented
      (signed alice) (account_location kusama alice) alice alice_located
