-- ===== src/Tests/Runtime.antt =====
-- The runtimes' configuration at concrete calls, votes and amounts.
use native.Mathlib.Nat.{div-mul-le_self, lt-div-mul-add, div-le_of_le-mul, mul-le-mul_right}
use parachain.Base.{
  ◌⊎◌, ℕ, ◌+◌, ◌-◌, ◌*◌, ◌/◌, ◌≤◌, ◌<◌, ◌≡◌, refl, ◌↔◌, Bool, true, false, ◌||◌, Option, none, some,
  List, [], ◌∷◌, leb, ltb, arith,
}
use parachain.Runtime.Proxy.{
  RuntimeCall, balances, any_call, non_transfer, governance, filter, is_superset,
}
use parachain.Runtime.Proxy.Laws.{is_superset_iff}
use parachain.Runtime.Governance.{
  Collective, council_instance, technical_committee_instance, Checks, fast_track, instant,
  cancel_proposal, external, external_majority, external_default, blacklist, approve, reject, spend,
  democracy_origin, treasury_origin,
}
use parachain.Runtime.Governance.Laws.{
  technical_committee_half, council_majority, fast_track-of-cancel,
}
use parachain.Runtime.Governance.Laws
use parachain.Runtime.Governance.{pallet_origin, swap, set_council_members, set_technical_members}
use parachain.Runtime.Currency.{cents}
use parachain.Runtime.Fees.{WeightToFeeCoefficient, Imbalances, deal_with_fees, polynomial}
use parachain.Runtime.Fees.Laws.{deposit_exact, treasury_amount, total, deal_with_fees_split}
use parachain.Runtime.Fees.Laws as FeeLaws
use parachain.Xcm.Barrier.{Weight}
use parachain.Runtime.BlockWeights.{
  maximum_block_weight, normal_weight, reserved_xcmp_weight, reserved_dmp_weight,
  runtime_block_weights,
}
use parachain.Runtime.BlockWeights.Laws.{TakesPart, runtime_block_weights-add}
use parachain.Runtime.Fees.Weights.{RoundsDown, RoundsToNearest, polynomial_fee_any}

is_superset_iff_example :
    (is_superset non_transfer governance ≡ true)
    ↔ ((c : RuntimeCall) → filter governance c ≡ true → filter non_transfer c ≡ true)
is_superset_iff_example = is_superset_iff non_transfer governance

any_allows_transfer : filter any_call (balances 3) ≡ true
unfolding filter
any_allows_transfer = refl

-- Root, a vote of the council or of the technical committee, or a signed account.
data SomeOrigin : Type 0 where
  root signed : SomeOrigin
  voted : Collective → ℕ → ℕ → SomeOrigin

abbrev is_root : SomeOrigin → Bool
is_root root = true
is_root _ = false

abbrev votes_of : Collective → SomeOrigin → Option (ℕ × ℕ)
votes_of council_instance (voted council_instance ayes members) = some (ayes, members)
votes_of technical_committee_instance (voted technical_committee_instance ayes members) =
    some (ayes, members)
votes_of _ _ = none

abbrev checks : Checks
checks = record {
  Origin = SomeOrigin;
  ensure_root = is_root;
  ensure_signed = λ o. elim o [ signed ↦ true | _ ↦ false ];
  ensure_member = λ c o. false;
  ensure_proportion_more_than = λ c n d o. elim (votes_of c o) [
    | none ↦ false
    | some (ayes, members) ↦ ltb (n * members) (ayes * d)
  ];
  ensure_proportion_at_least = λ c n d o. elim (votes_of c o) [
    | none ↦ false
    | some (ayes, members) ↦ leb (n * members) (ayes * d)
  ];
  either_of_diverse = λ l r o. l o || r o;
}

abbrev documented : Laws.AreDocumented checks
documented = record {
  votes = votes_of;
  either = λ l r o. refl;
  more_than = λ c n d o. refl;
  at_least = λ c n d o. refl;
}

-- Two of four members.
technical_committee_half_example :
    ((democracy_origin checks fast_track (voted technical_committee_instance 2 4) ≡ true)
      ↔ (4 ≤ 2 * 2))
    × ((democracy_origin checks instant (voted technical_committee_instance 2 4) ≡ true)
        ↔ (4 ≤ 2 * 2))
    × ((democracy_origin checks cancel_proposal (voted technical_committee_instance 2 4) ≡ true)
        ↔ (4 ≤ 2))
technical_committee_half_example =
    technical_committee_half checks documented (voted technical_committee_instance 2 4) refl refl

council_majority_example :
    ((democracy_origin checks external (voted council_instance 3 5) ≡ true) ↔ (
      ((external ≡ external)
        ⊎ (external ≡ external_majority)
        ⊎ (external ≡ external_default)
        ⊎ (external ≡ blacklist))
      × (5 < 2 * 3)))
    × ((treasury_origin checks spend (voted council_instance 3 5) ≡ true)
        ↔ (((spend ≡ approve) ⊎ (spend ≡ reject)) × (5 < 2 * 3)))
    × ((pallet_origin checks swap (voted council_instance 3 5) ≡ true) ↔ (
        ((swap ≡ set_council_members) ⊎ (swap ≡ set_technical_members) ⊎ (swap ≡ swap))
        × (5 < 2 * 3)))
council_majority_example =
    council_majority checks documented (voted council_instance 3 5) external spend swap refl refl
      refl refl refl

-- Imbalances as amounts.
abbrev amounts : Imbalances
amounts = record {
  Imbalance = ℕ;
  peek = λ a. a;
  ration = λ a first second. (a * first / (first + second), a - a * first / (first + second));
  merge = λ a b. a + b;
}

first_part_fits : (a first second : ℕ) → 0 < first + second → a * first / (first + second) ≤ a
first_part_fits a first second h = div-le_of_le-mul (first + second) (omega arith)

abbrev amounts_documented : FeeLaws.AreDocumented amounts
amounts_documented = record {
  peek-merge = λ a b. refl;
  peek-ration = λ a first second h. (refl, omega (arith, first_part_fits a first second h));
}

deal_with_fees_split_example :
    (treasury_amount amounts (deal_with_fees amounts (1234 ∷ 5 ∷ [])) ≡ 1234 / 100 + 5)
    × (total amounts (deal_with_fees amounts (1234 ∷ 5 ∷ [])).dropped ≡ 1234 - 1234 / 100)
    × (treasury_amount amounts (deal_with_fees amounts (1234 ∷ 5 ∷ []))
          + total amounts (deal_with_fees amounts (1234 ∷ 5 ∷ [])).dropped
        ≡ 1234 + 5)
deal_with_fees_split_example = deal_with_fees_split amounts amounts_documented 1234 5

abbrev parts_below : ℕ → ℕ → ℕ
parts_below p q = p * 1_000_000_000 / q

parts_RoundsDown : RoundsDown parts_below
parts_RoundsDown p q h = (
  div-mul-le_self (p * 1_000_000_000) q,
  omega (arith, lt-div-mul-add {a = p * 1_000_000_000} {b = q} (omega arith)),
)

-- A product that is rounded to the nearest unit.
abbrev nearest : List WeightToFeeCoefficient → ℕ → ℕ
nearest [] weight = 0
nearest (c ∷ cs) weight =
    (c.coeff_frac * weight + 500_000_000) / 1_000_000_000
    + c.coeff_integer * weight
    + nearest cs weight

nearest-RoundsToNearest : RoundsToNearest nearest
nearest-RoundsToNearest frac integer weight hf hi hw =
    let product : ℕ = frac * weight + 500_000_000 in
    let low = div-mul-le_self product 1_000_000_000 in
    let high = lt-div-mul-add {a = product} {b = 1_000_000_000} (omega arith) in
    (grind (arith, low), grind (arith, high))

polynomial_fee_any_example :
    let fee = nearest (polynomial parts_below 125_000_000) 493_300_271 in
    (fee * 1_000_000_000 * (100 * 125_000_000)
      ≤ 493_300_271 * cents * 1_000_000_000 + 500_000_000 * (100 * 125_000_000))
    × (493_300_271 * cents * 1_000_000_000
        < (fee * 1_000_000_000 + 500_000_000 + 493_300_271) * (100 * 125_000_000))
polynomial_fee_any_example =
    polynomial_fee_any parts_below nearest 125_000_000 493_300_271 parts_RoundsDown
      nearest-RoundsToNearest (omega arith) (omega arith) (omega arith)

abbrev part_of : ℕ → ℕ → ℕ
part_of parts value = parts * value / 1_000_000_000

part_of-TakesPart : TakesPart part_of
part_of-TakesPart parts value h = div-le_of_le-mul 1_000_000_000 (mul-le-mul_right value h)

abbrev normal_part : Weight
normal_part = normal_weight 1_000_000_000_000 5_242_880 part_of

abbrev reserved_part : Weight
reserved_part = record { ref_time = 125_000_000_000; proof_size = 1_310_720 }

normal_part_is :
    (runtime_block_weights 1_000_000_000_000 5_242_880 part_of).normal.max_total ≡ some normal_part
unfolding runtime_block_weights
normal_part_is = refl

reserved_part_is :
    (runtime_block_weights 1_000_000_000_000 5_242_880 part_of).operational.reserved
    ≡ some reserved_part
unfolding runtime_block_weights
reserved_part_is = refl

runtime_block_weights-add_example :
    (normal_part.ref_time + reserved_part.ref_time ≡ 500_000_000_000)
    × (normal_part.proof_size + reserved_part.proof_size ≡ 5_242_880)
    × ((runtime_block_weights 1_000_000_000_000 5_242_880 part_of).operational.max_total
        ≡ some (maximum_block_weight 1_000_000_000_000 5_242_880))
    × (2
          * ((reserved_xcmp_weight 1_000_000_000_000 5_242_880).ref_time
              + (reserved_dmp_weight 1_000_000_000_000 5_242_880).ref_time)
        ≤ 500_000_000_000)
    × (2
          * ((reserved_xcmp_weight 1_000_000_000_000 5_242_880).proof_size
              + (reserved_dmp_weight 1_000_000_000_000 5_242_880).proof_size)
        ≤ 5_242_880)
runtime_block_weights-add_example =
    runtime_block_weights-add 1_000_000_000_000 5_242_880 part_of part_of-TakesPart normal_part
      reserved_part normal_part_is reserved_part_is
