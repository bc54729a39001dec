-- ===== src/Runtime/Fees/Laws.antt =====
-- Where fees and tips go, and what a deposit costs.
use parachain.Base.{ℕ, ◌+◌, ◌-◌, ◌*◌, ◌/◌, ◌<◌, ◌^◌, ◌≡◌, none, some, List, [], ◌∷◌, arith}
use parachain.Runtime.Fees.{teer, milliteer, deposit, Imbalances, Settled, deal_with_fees}

-- `deposit` never wraps: for any two `u32` it is 20 TEER an item and 0.001 TEER a byte.
pub deposit_exact :
    (items bytes : ℕ)
    → items < 2 ^ 32
    → bytes < 2 ^ 32
    → deposit items bytes ≡ items * (20 * teer) + bytes * milliteer
unfolding deposit
deposit_exact items bytes h k = omega arith

-- The documented behaviour of an imbalance: merging adds the amounts, and rationing by 1 to 99
-- gives the first part a hundredth, rounded down, and the second what is left.
pub record AreDocumented (I : Imbalances) : Type 0 where
  pub peek-merge : (a b : I.Imbalance) → I.peek (I.merge a b) ≡ I.peek a + I.peek b
  pub peek-ration :
      (a : I.Imbalance) (first second : ℕ)
      → 0 < first + second
      → (I.peek (I.ration a first second).0 ≡ I.peek a * first / (first + second))
        × (I.peek (I.ration a first second).0 + I.peek (I.ration a first second).1 ≡ I.peek a)

module _ (I : Imbalances) where
  abbrev pub treasury_amount : Settled I → ℕ
  treasury_amount s = elim s.treasury [ none ↦ 0 | some a ↦ I.peek a ]

  abbrev pub total : List I.Imbalance → ℕ
  total [] = 0
  total (a ∷ rest) = I.peek a + total rest

  module _ (D : AreDocumented I) where
    -- Of fees and tips the treasury gets a hundredth of the fees, rounded down, and all of the tips;
    -- the rest of the fees is dropped, which burns it; together that is all that was paid.
    pub deal_with_fees_split :
        (fees tips : I.Imbalance)
        → let s = deal_with_fees I (fees ∷ tips ∷ []) in
          (treasury_amount s ≡ I.peek fees / 100 + I.peek tips)
          × (total s.dropped ≡ I.peek fees - I.peek fees / 100)
          × (treasury_amount s + total s.dropped ≡ I.peek fees + I.peek tips)
    unfolding deal_with_fees
    deal_with_fees_split fees tips =
        ground
          (arith, D.peek-ration fees 1 99 (omega arith), D.peek-merge (I.ration fees 1 99).0 tips)

    -- The same with no tips, and with nothing paid at all.
    pub deal_with_fees_no_tips :
        (fees : I.Imbalance)
        → let s = deal_with_fees I (fees ∷ []) in
          (treasury_amount s ≡ I.peek fees / 100)
          × (treasury_amount s + total s.dropped ≡ I.peek fees)
          × ((deal_with_fees I []).treasury ≡ none)
    unfolding deal_with_fees
    deal_with_fees_no_tips fees = ground (arith, D.peek-ration fees 1 99 (omega arith))
