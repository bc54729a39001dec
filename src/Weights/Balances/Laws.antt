-- ===== src/Weights/Balances/Laws.antt =====
-- The components of the weight functions of `pallet_balances`, what their source documents of
-- each, and what they charge
-- (polkadot-parachains/integritee-runtime/src/weights/pallet_balances.rs).
use parachain.Base.{ℕ, ◌+◌, ◌*◌, ◌≤◌, ◌≡◌, arith}
use native.Mathlib.Nat.{mul-le-mul}
use parachain.Weights.Interface.{Weights, u64_saturating_mul, counting}
use parachain.Weights.Interface.Laws.{
  AreDocumented, saturate-le, saturate_of_le, u64_saturating_mul-le, weight_laws,
}
use parachain.Weights.Balances

-- The functions, with their components.
pub data Call : Type 0 where
  transfer_allow_death : Call
  transfer_keep_alive : Call
  force_set_balance_creating : Call
  force_set_balance_killing : Call
  force_transfer : Call
  transfer_all : Call
  force_unreserve : Call
  upgrade_accounts : ℕ → Call

unfoldable pub weight : (W : Weights) → Call → W.Weight
unfolding Balances.transfer_allow_death Balances.transfer_keep_alive
    Balances.force_set_balance_creating Balances.force_set_balance_killing Balances.force_transfer
    Balances.transfer_all Balances.force_unreserve Balances.upgrade_accounts
weight W transfer_allow_death = Balances.transfer_allow_death W
weight W transfer_keep_alive = Balances.transfer_keep_alive W
weight W force_set_balance_creating = Balances.force_set_balance_creating W
weight W force_set_balance_killing = Balances.force_set_balance_killing W
weight W force_transfer = Balances.force_transfer W
weight W transfer_all = Balances.transfer_all W
weight W force_unreserve = Balances.force_unreserve W
weight W (upgrade_accounts u) = Balances.upgrade_accounts W u

-- "The range of component ... is ..."
abbrev pub InRange : Call → Type 0
InRange (upgrade_accounts u) = (1 ≤ u) × (u ≤ 1000)
InRange _ = Unit {0}

-- "Estimated: ...", the size of the proof in bytes.
abbrev pub estimated : Call → ℕ
estimated transfer_allow_death = 3593
estimated transfer_keep_alive = 3593
estimated force_set_balance_creating = 3593
estimated force_set_balance_killing = 3593
estimated force_transfer = 6196
estimated transfer_all = 3593
estimated force_unreserve = 3593
estimated (upgrade_accounts u) = 990 + u * 2603

-- "Storage: ... (r:... w:...)", added up.
abbrev pub storage : Call → ℕ × ℕ
storage transfer_allow_death = (1, 1)
storage transfer_keep_alive = (1, 1)
storage force_set_balance_creating = (1, 1)
storage force_set_balance_killing = (1, 1)
storage force_transfer = (2, 2)
storage transfer_all = (1, 1)
storage force_unreserve = (1, 1)
storage (upgrade_accounts _) = (999, 999)

-- The component at which the accesses were counted, where they depend on one.
abbrev pub IsCounted : Call → Type 0
IsCounted (upgrade_accounts u) = u ≡ 999
IsCounted _ = Unit {0}

pub estimated-le : (c : Call) → InRange c → estimated c ≤ 2_621_440
estimated-le transfer_allow_death h = omega arith
estimated-le _ h = omega arith

module _ (W : Weights) ⦃D : AreDocumented W⦄ where
  -- In the documented ranges the proof size is the documented estimate: nothing saturates.
  pub proof_size-weight : (c : Call) → InRange c → W.proof_size (weight W c) ≡ estimated c
  unfolding weight
  proof_size-weight transfer_allow_death h = simp weight_laws (omega (arith, saturate_of_le))
  proof_size-weight _ h = simp weight_laws (omega (arith, saturate_of_le))

  -- In the documented ranges, with storage as fast as documented, the execution takes at most a
  -- quarter of a second.
  pub ref_time-weight-le :
      D.read ≤ 25_000_000
      → D.write ≤ 100_000_000
      → (c : Call) → InRange c
      → W.ref_time (weight W c) ≤ 250_000_000_000
  unfolding weight
  ref_time-weight-le fast quick (upgrade_accounts u) h = simp weight_laws (
      omega (
        arith,
        saturate-le,
        mul-le-mul fast (u64_saturating_mul-le 1 u),
        mul-le-mul quick (u64_saturating_mul-le 1 u),
      ))
  ref_time-weight-le fast quick transfer_allow_death h =
      simp weight_laws (omega (arith, saturate-le))
  ref_time-weight-le fast quick _ h = simp weight_laws (omega (arith, saturate-le))

-- At the counted component the weight charges the documented accesses, no more and no fewer.
pub weight-counting : (c : Call) → IsCounted c → weight counting c ≡ storage c
unfolding weight u64_saturating_mul
weight-counting (upgrade_accounts u) h = rw h (ground arith)
weight-counting transfer_allow_death h = ground arith
weight-counting _ h = ground arith
