-- ===== src/Tests/Tokens.antt =====
-- A transfer of the chain's own currency by a pallet that is as documented.
use parachain.Base.{ℕ, ◌≡◌, ◌≢◌, refl, false, List, [], ◌∷◌, some, err, any, sym}
use mathlib.Core.Option.{some-injective}
use parachain.Xcm.Location.{MultiLocation, here_location, parent_location}
use parachain.Xcm.Currency.{CurrencyId}
use parachain.Xcm.Barrier.{
  unsupported, Instruction, transfer_reserve_asset, Borrowed, sends_reserve_to_relay,
}
use parachain.Xcm.RuntimeBarrier.{barrier}
use parachain.Xcm.Tokens.{Transfer}
use parachain.Xcm.Tokens.Laws.{IsDocumented, own_transfer}
use parachain.Tests.Origins.{native_assets, relative_provider, assets-AreDocumented, sibling_2000}
use parachain.Tests.Barrier.{one_unit, allowing}

-- The amount stands for all that the instruction carries.
abbrev sent_to : MultiLocation → ℕ → List (Instruction ℕ)
sent_to chain amount = transfer_reserve_asset chain amount ∷ []

abbrev transfer : Transfer ℕ CurrencyId
transfer P c amount chain recipient = some (sent_to chain amount)

abbrev transfer-IsDocumented : IsDocumented transfer
transfer-IsDocumented = record {
  carried = λ recipient asset. asset.fun_code;
  self_reserve_lem =
      λ P c amount chain recipient l m converts home away sent. sym (some-injective _ _ sent);
}

abbrev to_relay : Borrowed ℕ
to_relay = record { message = sent_to parent_location 5; weight_credit = one_unit; log = [] }

sibling_away : sibling_2000 ≢ here_location
sibling_away e = cc

sibling_elsewhere : sibling_2000 ≢ parent_location
sibling_elsewhere e = cc

own_transfer_example :
    (barrier allowing here_location one_unit to_relay ≡ (err unsupported, to_relay))
    × (any sends_reserve_to_relay (sent_to sibling_2000 5) ≡ false)
own_transfer_example =
    own_transfer transfer transfer-IsDocumented native_assets relative_provider assets-AreDocumented
      2015 allowing 5 sibling_2000 here_location here_location one_unit to_relay
      (sent_to sibling_2000 5) refl refl sibling_away sibling_elsewhere
