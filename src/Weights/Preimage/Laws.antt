-- ===== src/Weights/Preimage/Laws.antt =====
-- The components of the weight functions of `pallet_preimage`, what their source documents of
-- each, and what they charge
-- (polkadot-parachains/integritee-runtime/src/weights/pallet_preimage.rs).
use parachain.Base.{ℕ, ◌≤◌, ◌≡◌, arith}
use parachain.Weights.Interface.{Weights, counting}
use parachain.Weights.Interface.Laws.{AreDocumented, saturate-le, saturate_of_le, weight_laws}
use parachain.Weights.Preimage

-- The functions, with their components.
pub data Call : Type 0 where
  note_preimage : ℕ → Call
  note_requested_preimage : ℕ → Call
  note_no_deposit_preimage : ℕ → Call
  unnote_preimage : Call
  unnote_no_deposit_preimage : Call
  request_preimage : Call
  request_no_deposit_preimage : Call
  request_unnoted_preimage : Call
  request_requested_preimage : Call
  unrequest_preimage : Call
  unrequest_unnoted_preimage : Call
  unrequest_multi_referenced_preimage : Call

unfoldable pub weight : (W : Weights) → Call → W.Weight
unfolding Preimage.note_preimage Preimage.note_requested_preimage Preimage.note_no_deposit_preimage
    Preimage.unnote_preimage Preimage.unnote_no_deposit_preimage Preimage.request_preimage
    Preimage.request_no_deposit_preimage Preimage.request_unnoted_preimage
    Preimage.request_requested_preimage Preimage.unrequest_preimage
    Preimage.unrequest_unnoted_preimage Preimage.unrequest_multi_referenced_preimage
weight W (note_preimage s) = Preimage.note_preimage W s
weight W (note_requested_preimage s) = Preimage.note_requested_preimage W s
weight W (note_no_deposit_preimage s) = Preimage.note_no_deposit_preimage W s
weight W unnote_preimage = Preimage.unnote_preimage W
weight W unnote_no_deposit_preimage = Preimage.unnote_no_deposit_preimage W
weight W request_preimage = Preimage.request_preimage W
weight W request_no_deposit_preimage = Preimage.request_no_deposit_preimage W
weight W request_unnoted_preimage = Preimage.request_unnoted_preimage W
weight W request_requested_preimage = Preimage.request_requested_preimage W
weight W unrequest_preimage = Preimage.unrequest_preimage W
weight W unrequest_unnoted_preimage = Preimage.unrequest_unnoted_preimage W
weight W unrequest_multi_referenced_preimage = Preimage.unrequest_multi_referenced_preimage W

-- "The range of component ... is ..."
abbrev pub InRange : Call → Type 0
InRange (note_preimage s) = (s ≤ 4_194_304)
InRange (note_requested_preimage s) = (s ≤ 4_194_304)
InRange (note_no_deposit_preimage s) = (s ≤ 4_194_304)
InRange _ = Unit {0}

-- "Estimated: ...", the size of the proof in bytes.
abbrev pub estimated : Call → ℕ
estimated (note_preimage _) = 3556
estimated (note_requested_preimage _) = 3556
estimated (note_no_deposit_preimage _) = 3556
estimated unnote_preimage = 3556
estimated unnote_no_deposit_preimage = 3556
estimated request_preimage = 3556
estimated request_no_deposit_preimage = 3556
estimated request_unnoted_preimage = 3556
estimated request_requested_preimage = 3556
estimated unrequest_preimage = 3556
estimated unrequest_unnoted_preimage = 3556
estimated unrequest_multi_referenced_preimage = 3556

-- "Storage: ... (r:... w:...)", added up.
abbrev pub storage : Call → ℕ × ℕ
storage (note_preimage _) = (1, 2)
storage (note_requested_preimage _) = (1, 2)
storage (note_no_deposit_preimage _) = (1, 2)
storage unnote_preimage = (1, 2)
storage unnote_no_deposit_preimage = (1, 2)
storage request_preimage = (1, 1)
storage request_no_deposit_preimage = (1, 1)
storage request_unnoted_preimage = (1, 1)
storage request_requested_preimage = (1, 1)
storage unrequest_preimage = (1, 2)
storage unrequest_unnoted_preimage = (1, 1)
storage unrequest_multi_referenced_preimage = (1, 1)

-- The component at which the accesses were counted, where they depend on one.
abbrev pub IsCounted : Call → Type 0
IsCounted _ = Unit {0}

pub estimated-le : (c : Call) → InRange c → estimated c ≤ 2_621_440
estimated-le (note_preimage s) h = omega arith
estimated-le _ h = omega arith

module _ (W : Weights) ⦃D : AreDocumented W⦄ where
  -- In the documented ranges the proof size is the documented estimate: nothing saturates.
  pub proof_size-weight : (c : Call) → InRange c → W.proof_size (weight W c) ≡ estimated c
  unfolding weight
  proof_size-weight (note_preimage s) h = simp weight_laws (omega (arith, saturate_of_le))
  proof_size-weight _ h = simp weight_laws (omega (arith, saturate_of_le))

  -- In the documented ranges, with storage as fast as documented, the execution takes at most a
  -- quarter of a second.
  pub ref_time-weight-le :
      D.read ≤ 25_000_000
      → D.write ≤ 100_000_000
      → (c : Call) → InRange c
      → W.ref_time (weight W c) ≤ 250_000_000_000
  unfolding weight
  ref_time-weight-le fast quick (note_preimage s) h = simp weight_laws (omega (arith, saturate-le))
  ref_time-weight-le fast quick _ h = simp weight_laws (omega (arith, saturate-le))

-- At the counted component the weight charges the documented accesses, no more and no fewer.
pub weight-counting : (c : Call) → IsCounted c → weight counting c ≡ storage c
unfolding weight
weight-counting (note_preimage s) h = ground arith
weight-counting _ h = ground arith
