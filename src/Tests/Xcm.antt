-- ===== src/Tests/Xcm.antt =====
-- The XCM configuration at concrete messages, locations and assets.
use mathlib.Core.List.{Memᴰ}
use parachain.Base.{
  ℕ, ◌-◌, ◌≤◌, leb, if◌then◌else◌, none, ◌≡◌, refl, ◌↔◌, ◌⊎◌, Option, some, [], ◌∷◌, ok, err,
}
use parachain.Xcm.Location.{
  para_chain, x2, MultiLocation, concrete, MultiAsset, here_location, parent_location,
}
use parachain.Xcm.Currency.{
  teer, teer_general_key, self_reserve, self_location_absolute, convert_id, convert_asset,
}
use parachain.Xcm.Currency.Laws.{convert_asset_iff}
use parachain.Xcm.Weigher.{unit_weight_cost, max_instructions, weigher, shell_weigher}
use parachain.Xcm.Weigher.Laws.{scaled, IsDocumented, HasRoom, weigher-HasRoom_iff}
use parachain.Runtime.BlockWeights.{reserved_dmp_weight}
use parachain.Xcm.Barrier.{
  Weight, unsupported, Instruction, deposit_reserve_asset, reserve_asset_deposited,
  other_instruction, Borrowed, ShouldExecute, deny_then_try, deny_reserve_transfer_to_relay_chain,
}
use parachain.Xcm.Barrier.Laws.{ToRelay, withdraws, deposits, transfers, deny_then_try_refuses}

abbrev some_weight : Weight
some_weight = record { ref_time = 1000; proof_size = 64 }

-- A second barrier that takes the weight from the credit and lets everything through.
abbrev take_credit : ShouldExecute ℕ
take_credit origin max_weight s = (
  ok tt,
  record s {
    weight_credit = record {
      ref_time = s.weight_credit.ref_time - max_weight.ref_time;
      proof_size = s.weight_credit.proof_size - max_weight.proof_size;
    };
  },
)

abbrev sending : Borrowed ℕ
sending = record {
  message = other_instruction 1 ∷ deposit_reserve_asset parent_location 2 ∷ [];
  weight_credit = some_weight;
  log = [];
}

abbrev receiving : Borrowed ℕ
receiving = record {
  message = reserve_asset_deposited 1 ∷ other_instruction 2 ∷ [];
  weight_credit = some_weight;
  log = [];
}

deny_then_try_refuses_example :
    deny_then_try deny_reserve_transfer_to_relay_chain take_credit here_location some_weight sending
    ≡ (err unsupported, sending)
deny_then_try_refuses_example =
    deny_then_try_refuses take_credit here_location some_weight sending (deposits 2)
      (Memᴰ.tail (Memᴰ.head refl))

receiving_sends_nothing : (i : Instruction ℕ) → Memᴰ i receiving.message → ¬ ToRelay i
receiving_sends_nothing i (Memᴰ.head e) (withdraws r) = cc
receiving_sends_nothing i (Memᴰ.head e) (deposits r) = cc
receiving_sends_nothing i (Memᴰ.head e) (transfers r) = cc
receiving_sends_nothing i (Memᴰ.tail (Memᴰ.head e)) (withdraws r) = cc
receiving_sends_nothing i (Memᴰ.tail (Memᴰ.head e)) (deposits r) = cc
receiving_sends_nothing i (Memᴰ.tail (Memᴰ.head e)) (transfers r) = cc
receiving_sends_nothing i (Memᴰ.tail (Memᴰ.tail m)) t = elim m [ ]

abbrev sibling_view : MultiLocation
sibling_view = record { parents = 1; interior = x2 (para_chain 2015) teer_general_key }

abbrev some_asset : MultiAsset
some_asset = record { id = concrete sibling_view; fun_code = 5 }

convert_asset_iff_example : (convert_asset 2015 some_asset ≡ some teer) ↔ (
    (location : MultiLocation) × (some_asset.id ≡ concrete location)
    × ((convert_id 2015 teer ≡ some location) ⊎ (location ≡ self_reserve)))
convert_asset_iff_example = convert_asset_iff 2015 some_asset

sibling_view_is_own : convert_id 2015 teer ≡ some sibling_view
unfolding convert_id
sibling_view_is_own = refl

-- A provider that names the chain's absolute location for every asset.
abbrev names_self : MultiAsset → Option MultiLocation
names_self asset = some (self_location_absolute 2015)

-- Messages are given by their number of instructions.
abbrev fixed_weight_bounds : Weight → ℕ → ℕ → Option Weight
fixed_weight_bounds unit most n = if leb n most then some (scaled unit n) else none

abbrev bounds_documented : IsDocumented fixed_weight_bounds
bounds_documented = record {
  instructions = λ n. n;
  HasNoTransact = λ n. Unit {0};
  weight_of = λ unit most n plain. refl;
}

eleven_weighed :
    weigher fixed_weight_bounds 11
    ≡ some (record { ref_time = 2_200_000_000; proof_size = 1_441_792 })
unfolding weigher unit_weight_cost max_instructions
eleven_weighed = refl

weigher-HasRoom_iff_example :
    (weigher fixed_weight_bounds 11 ≡ shell_weigher fixed_weight_bounds 11)
    × (HasRoom (reserved_dmp_weight 1_000_000_000_000 5_242_880) (weigher fixed_weight_bounds 11)
        ↔ (11 ≤ 10))
weigher-HasRoom_iff_example =
    weigher-HasRoom_iff fixed_weight_bounds bounds_documented refl refl 11 tt
