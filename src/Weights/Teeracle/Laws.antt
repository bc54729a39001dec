-- ===== src/Weights/Teeracle/Laws.antt =====
-- The components of the weight functions of `pallet_teeracle`, what their source documents of
-- each, and what they charge
-- (polkadot-parachains/integritee-runtime/src/weights/pallet_teeracle.rs).
use parachain.Base.{ℕ, ◌≤◌, ◌≡◌, arith}
use parachain.Weights.Interface.{Weights, counting}
use parachain.Weights.Interface.Laws.{AreDocumented, saturate-le, saturate_of_le, weight_laws}
use parachain.Weights.Teeracle

-- The functions, with their components.
pub data Call : Type 0 where
  update_exchange_rate : Call
  update_oracle : Call
  add_to_whitelist : Call
  remove_from_whitelist : Call

unfoldable pub weight : (W : Weights) → Call → W.Weight
unfolding Teeracle.update_exchange_rate Teeracle.update_oracle Teeracle.add_to_whitelist
    Teeracle.remove_from_whitelist
weight W update_exchange_rate = Teeracle.update_exchange_rate W
weight W update_oracle = Teeracle.update_oracle W
weight W add_to_whitelist = Teeracle.add_to_whitelist W
weight W remove_from_whitelist = Teeracle.remove_from_whitelist W

-- "The range of component ... is ..."
abbrev pub InRange : Call → Type 0
InRange _ = Unit {0}

-- "Estimated: ...", the size of the proof in bytes.
abbrev pub estimated : Call → ℕ
estimated update_exchange_rate = 3956
estimated update_oracle = 3947
estimated add_to_whitelist = 3507
estimated remove_from_whitelist = 3609

-- "Storage: ... (r:... w:...)", added up.
abbrev pub storage : Call → ℕ × ℕ
storage update_exchange_rate = (3, 1)
storage update_oracle = (2, 1)
storage add_to_whitelist = (1, 1)
storage remove_from_whitelist = (1, 1)

-- The component at which the accesses were counted, where they depend on one.
abbrev pub IsCounted : Call → Type 0
IsCounted _ = Unit {0}

pub estimated-le : (c : Call) → InRange c → estimated c ≤ 2_621_440
estimated-le update_exchange_rate h = omega arith
estimated-le _ h = omega arith

module _ (W : Weights) ⦃D : AreDocumented W⦄ where
  -- In the documented ranges the proof size is the documented estimate: nothing saturates.
  pub proof_size-weight : (c : Call) → InRange c → W.proof_size (weight W c) ≡ estimated c
  unfolding weight
  proof_size-weight update_exchange_rate h = simp weight_laws (omega (arith, saturate_of_le))
  proof_size-weight _ h = simp weight_laws (omega (arith, saturate_of_le))

  -- In the documented ranges, with storage as fast as documented, the execution takes at most a
  -- quarter of a second.
  pub ref_time-weight-le :
      D.read ≤ 25_000_000
      → D.write ≤ 100_000_000
      → (c : Call) → InRange c
      → W.ref_time (weight W c) ≤ 250_000_000_000
  unfolding weight
  ref_time-weight-le fast quick update_exchange_rate h =
      simp weight_laws (omega (arith, saturate-le))
  ref_time-weight-le fast quick _ h = simp weight_laws (omega (arith, saturate-le))

-- At the counted component the weight charges the documented accesses, no more and no fewer.
pub weight-counting : (c : Call) → IsCounted c → weight counting c ≡ storage c
unfolding weight
weight-counting update_exchange_rate h = ground arith
weight-counting _ h = ground arith
