-- ===== src/Weights/Preimage.antt =====
-- The weight functions of `pallet_preimage`
-- (polkadot-parachains/integritee-runtime/src/weights/pallet_preimage.rs).
pub mod Laws
pub mod Storage
use parachain.Base.{ℕ}
use parachain.Weights.Interface.{Weights}

module _ (W : Weights) where
  open W use {Weight, from_parts, saturating_add, saturating_mul, reads, writes}

  infixl 65 ◌⊕◌
  abbrev ◌⊕◌ : Weight → Weight → Weight
  a ⊕ b = saturating_add a b

  unfoldable pub note_preimage : ℕ → Weight
  note_preimage s =
      from_parts 53_175_000 0
      ⊕ from_parts 0 3556
      ⊕ saturating_mul (from_parts 1631 0) s
      ⊕ reads 1
      ⊕ writes 2

  unfoldable pub note_requested_preimage : ℕ → Weight
  note_requested_preimage s =
      from_parts 14_186_000 0
      ⊕ from_parts 0 3556
      ⊕ saturating_mul (from_parts 1639 0) s
      ⊕ reads 1
      ⊕ writes 2

  unfoldable pub note_no_deposit_preimage : ℕ → Weight
  note_no_deposit_preimage s =
      from_parts 13_425_000 0
      ⊕ from_parts 0 3556
      ⊕ saturating_mul (from_parts 1632 0) s
      ⊕ reads 1
      ⊕ writes 2

  unfoldable pub unnote_preimage : Weight
  unnote_preimage = from_parts 39_172_000 0 ⊕ from_parts 0 3556 ⊕ reads 1 ⊕ writes 2

  unfoldable pub unnote_no_deposit_preimage : Weight
  unnote_no_deposit_preimage = from_parts 20_182_000 0 ⊕ from_parts 0 3556 ⊕ reads 1 ⊕ writes 2

  unfoldable pub request_preimage : Weight
  request_preimage = from_parts 18_862_000 0 ⊕ from_parts 0 3556 ⊕ reads 1 ⊕ writes 1

  unfoldable pub request_no_deposit_preimage : Weight
  request_no_deposit_preimage = from_parts 10_489_000 0 ⊕ from_parts 0 3556 ⊕ reads 1 ⊕ writes 1

  unfoldable pub request_unnoted_preimage : Weight
  request_unnoted_preimage = from_parts 11_683_000 0 ⊕ from_parts 0 3556 ⊕ reads 1 ⊕ writes 1

  unfoldable pub request_requested_preimage : Weight
  request_requested_preimage = from_parts 7_587_000 0 ⊕ from_parts 0 3556 ⊕ reads 1 ⊕ writes 1

  unfoldable pub unrequest_preimage : Weight
  unrequest_preimage = from_parts 19_124_000 0 ⊕ from_parts 0 3556 ⊕ reads 1 ⊕ writes 2

  unfoldable pub unrequest_unnoted_preimage : Weight
  unrequest_unnoted_preimage = from_parts 7_391_000 0 ⊕ from_parts 0 3556 ⊕ reads 1 ⊕ writes 1

  unfoldable pub unrequest_multi_referenced_preimage : Weight
  unrequest_multi_referenced_preimage =
      from_parts 7_545_000 0 ⊕ from_parts 0 3556 ⊕ reads 1 ⊕ writes 1
