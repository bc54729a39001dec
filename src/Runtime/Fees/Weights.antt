-- ===== src/Runtime/Fees/Weights.antt =====
-- How close the fee polynomial comes to its aim.
use native.Mathlib.Nat.{
  mod-lt, div-add-mod, mul-le-mul_left, mul-lt-mul_of_pos_left, le_of_mul-le-mul_left, div-le_self,
}
use parachain.Base.{ℕ, ◌+◌, ◌*◌, ◌/◌, ◌%◌, ◌≤◌, ◌<◌, ◌≡◌, ap, ◌^◌, false, List, [], ◌∷◌, arith}
use parachain.Runtime.Currency.{cents}
use parachain.Runtime.Fees.{WeightToFeeCoefficient, polynomial}

-- What is documented of `Perbill::from_rational` for a fraction below one: the parts of 10^9 that
-- lie at or below it, and one more lies above it.
abbrev pub RoundsDown : (ℕ → ℕ → ℕ) → Type 0
RoundsDown from_rational =
    (p q : ℕ)
    → p < q
    → (from_rational p q * q ≤ p * 1_000_000_000)
      × (p * 1_000_000_000 < (from_rational p q + 1) * q)

-- What is documented of `WeightToFeePolynomial::weight_to_fee` for one coefficient of degree one that
-- is not negative: the weight times the integer, and the product of the `Perbill` with the weight,
-- which is rounded to the nearest unit. Nothing saturates for a weight of 64 bits and an integer of 63.
abbrev pub RoundsToNearest : (List WeightToFeeCoefficient → ℕ → ℕ) → Type 0
RoundsToNearest weight_to_fee =
    (frac integer weight : ℕ)
    → frac ≤ 1_000_000_000
    → integer < 2 ^ 63
    → weight < 2 ^ 64
    → let c : WeightToFeeCoefficient = record {
      degree = 1;
      negative = false;
      coeff_frac = frac;
      coeff_integer = integer;
    } in
      let fee = weight_to_fee (c ∷ []) weight in
      let exact = frac * weight + integer * weight * 1_000_000_000 in
      (fee * 1_000_000_000 ≤ exact + 500_000_000) × (exact ≤ fee * 1_000_000_000 + 500_000_000)

-- The two bounds of the ratio at a weight.
split_ratio :
    (x d m q c w : ℕ)
    → x * q ≤ m * 1_000_000_000
    → m * 1_000_000_000 < (x + 1) * q
    → q * d + m ≡ c
    → 0 < w
    → let fee = x * w + d * w * 1_000_000_000 + 0 in
      (fee * q ≤ w * c * 1_000_000_000) × (w * c * 1_000_000_000 < (fee + w) * q)
split_ratio x d m q c w below above whole pos =
    let low : w * (x * q) ≤ w * (m * 1_000_000_000) = mul-le-mul_left w below in
    let high : w * (m * 1_000_000_000) < w * ((x + 1) * q) = mul-lt-mul_of_pos_left above pos in
    let all : w * (q * d + m) ≡ w * c = ap (λ n. w * n) whole in grind arith

-- A share of parts of 10^9 that lies within half a unit of a fee.
share_of_fee :
    (q w c fee exact : ℕ)
    → fee * 1_000_000_000 ≤ exact + 500_000_000
    → exact ≤ fee * 1_000_000_000 + 500_000_000
    → exact * q ≤ w * c * 1_000_000_000
    → w * c * 1_000_000_000 < (exact + w) * q
    → (fee * 1_000_000_000 * q ≤ w * c * 1_000_000_000 + 500_000_000 * q)
      × (w * c * 1_000_000_000 < (fee * 1_000_000_000 + 500_000_000 + w) * q)
share_of_fee q w c fee exact low high most short =
    let low' : q * (fee * 1_000_000_000) ≤ q * (exact + 500_000_000) = mul-le-mul_left q low in
    let high' : q * exact ≤ q * (fee * 1_000_000_000 + 500_000_000) = mul-le-mul_left q high in
    (grind arith, grind arith)

-- A weight other than 0 is charged its share of a cent per hundred base weights: the fee exceeds the
-- share by half of the smallest unit at most, and falls short of it by less than that and one part of
-- 10^9 for each unit of weight. For a `from_rational` that rounds down and a product that is rounded to
-- the nearest unit.
pub polynomial_fee_any :
    (from_rational : ℕ → ℕ → ℕ) (weight_to_fee : List WeightToFeeCoefficient → ℕ → ℕ)
    (base weight : ℕ)
    → RoundsDown from_rational
    → RoundsToNearest weight_to_fee
    → 0 < base
    → 0 < weight
    → weight < 2 ^ 64
    → let fee = weight_to_fee (polynomial from_rational base) weight in
      (fee * 1_000_000_000 * (100 * base)
        ≤ weight * cents * 1_000_000_000 + 500_000_000 * (100 * base))
      × (weight * cents * 1_000_000_000
          < (fee * 1_000_000_000 + 500_000_000 + weight) * (100 * base))
unfolding polynomial
polynomial_fee_any from_rational weight_to_fee base weight rounds nearest pos some_weight fits =
    let q : ℕ = 100 * base in
    let x : ℕ = from_rational (cents % q) q in
    let rest : cents % q < q = mod-lt cents (omega arith) in
    let (below, above) = rounds (cents % q) q rest in
    let (most, short) =
      split_ratio x (cents / q) (cents % q) q cents weight below above (div-add-mod cents q)
        some_weight in
    let at_most : q * x ≤ q * 1_000_000_000 = omega (arith, below, rest) in
    let (low, high) =
      nearest x (cents / q) weight (le_of_mul-le-mul_left at_most (omega arith))
        (omega (arith, div-le_self cents q)) fits in
    share_of_fee q weight cents (weight_to_fee (polynomial from_rational base) weight)
      (x * weight + cents / q * weight * 1_000_000_000) low high (omega (arith, most))
      (omega (arith, short))
