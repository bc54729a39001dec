-- ===== src/Runtime/Fees.antt =====
-- Fees and deposits: `DealWithFees` and `deposit` of
-- polkadot-parachains/integritee-runtime/src/lib.rs, and `WeightToFee` of
-- polkadot-parachains/common/src/fee.rs. Balances are `u128`.
pub mod Laws
pub mod Weights
use parachain.Base.{ℕ, ◌+◌, ◌*◌, ◌/◌, ◌%◌, ◌^◌, Option, none, some, List, [], ◌∷◌, Bool, false}
use parachain.Runtime.Currency.{cents}

abbrev pub teer : ℕ
teer = 1_000_000_000_000

abbrev pub milliteer : ℕ
milliteer = 1_000_000_000

abbrev pub microteer : ℕ
microteer = 1_000_000

abbrev pub u128_mod : ℕ
u128_mod = 2 ^ 128

-- `deposit`, with the wrap-around of `u128` written out.
unfoldable pub deposit : ℕ → ℕ → ℕ
deposit items bytes =
    ((items * 20 % u128_mod) * teer % u128_mod + (bytes * 1_000 % u128_mod) * microteer % u128_mod)
    % u128_mod

-- An `Imbalance` of the currency and its trait functions, outside the repository: the amount,
-- `ration`, and `merge`, which `merge_into` is with its arguments swapped.
pub record Imbalances : Type 1 where
  pub Imbalance : Type 0
  pub peek : Imbalance → ℕ
  pub ration : Imbalance → ℕ → ℕ → Imbalance × Imbalance
  pub merge : Imbalance → Imbalance → Imbalance

module _ (I : Imbalances) where
  -- What `on_unbalanceds` hands to `Treasury::on_unbalanced`, if it calls it, and what it drops.
  pub record Settled : Type 0 where
    pub treasury : Option I.Imbalance
    pub dropped : List I.Imbalance

  -- The iterator's first item is the fees and its second the tips; it is not asked for more.
  unfoldable pub deal_with_fees : List I.Imbalance → Settled
  deal_with_fees [] = record { treasury = none; dropped = [] }
  deal_with_fees (fees ∷ []) =
      let (to_treasury, rest) = I.ration fees 1 99 in
      record { treasury = some to_treasury; dropped = rest ∷ [] }
  deal_with_fees (fees ∷ tips ∷ more) =
      let (to_treasury, rest) = I.ration fees 1 99 in
      record { treasury = some (I.merge to_treasury tips); dropped = rest ∷ [] }

-- `WeightToFeeCoefficient`; the fraction is a `Perbill`, counted in parts of 10^9.
pub record WeightToFeeCoefficient : Type 0 where
  pub degree : ℕ
  pub negative : Bool
  pub coeff_frac : ℕ
  pub coeff_integer : ℕ

-- `Perbill::from_rational` and the reference time of `ExtrinsicBaseWeight` are outside the
-- repository. The numbers stay far below 2^128, so that no operation wraps.
module _ (perbill_from_rational : ℕ → ℕ → ℕ) (base_ref_time : ℕ) where
  unfoldable pub polynomial : List WeightToFeeCoefficient
  polynomial =
      let p : ℕ = cents in
      let q : ℕ = 100 * base_ref_time in
      record {
        degree = 1;
        negative = false;
        coeff_frac = perbill_from_rational (p % q) q;
        coeff_integer = p / q;
      }
      ∷ []
