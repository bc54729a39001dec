-- ===== src/Weights/System/Laws.antt =====
-- The components of the weight functions of `frame_system`, what their source documents of each,
-- and what they charge (polkadot-parachains/integritee-runtime/src/weights/frame_system.rs).
use parachain.Base.{ℕ, ◌+◌, ◌*◌, ◌≤◌, ◌≡◌, arith}
use native.Mathlib.Nat.{mul-le-mul}
use parachain.Weights.Interface.{Weights, saturate, u64_saturating_mul, counting}
use parachain.Weights.Interface.Laws.{
  AreDocumented, saturate-le, saturate_of_le, u64_saturating_mul-le, weight_laws,
}
use parachain.Weights.System

-- The functions, with their components.
pub data Call : Type 0 where
  remark : ℕ → Call
  remark_with_event : ℕ → Call
  set_heap_pages : Call
  set_storage : ℕ → Call
  kill_storage : ℕ → Call
  kill_prefix : ℕ → Call

unfoldable pub weight : (W : Weights) → Call → W.Weight
unfolding System.remark System.remark_with_event System.set_heap_pages System.set_storage
    System.kill_storage System.kill_prefix
weight W (remark b) = System.remark W b
weight W (remark_with_event b) = System.remark_with_event W b
weight W set_heap_pages = System.set_heap_pages W
weight W (set_storage i) = System.set_storage W i
weight W (kill_storage i) = System.kill_storage W i
weight W (kill_prefix p) = System.kill_prefix W p

-- "The range of component ... is ..."
abbrev pub InRange : Call → Type 0
InRange (remark b) = (b ≤ 3_932_160)
InRange (remark_with_event b) = (b ≤ 3_932_160)
InRange (set_storage i) = (i ≤ 1000)
InRange (kill_storage i) = (i ≤ 1000)
InRange (kill_prefix p) = (p ≤ 1000)
InRange _ = Unit {0}

-- "Estimated: ...", the size of the proof in bytes.
abbrev pub estimated : Call → ℕ
estimated (remark _) = 0
estimated (remark_with_event _) = 0
estimated set_heap_pages = 1485
estimated (set_storage _) = 0
estimated (kill_storage _) = 0
estimated (kill_prefix p) = 88 + p * 70

-- "Storage: ... (r:... w:...)", added up: of what the functions overwrite nothing is documented but
-- "Skipped Metadata (r:0 w:0)".
abbrev pub storage : Call → ℕ × ℕ
storage (remark _) = (0, 0)
storage (remark_with_event _) = (0, 0)
storage set_heap_pages = (1, 2)
storage (set_storage _) = (0, 0)
storage (kill_storage _) = (0, 0)
storage (kill_prefix _) = (0, 0)

-- The reads and writes of the keys that a call overwrites, one for each key.
abbrev pub overwritten : Call → ℕ × ℕ
overwritten (set_storage i) = (0, i)
overwritten (kill_storage i) = (0, i)
overwritten (kill_prefix p) = (p, p)
overwritten _ = (0, 0)

-- No component stands for an access that was counted: each is anywhere in its range.
abbrev pub IsCounted : Call → Type 0
IsCounted c = InRange c

pub estimated-le : (c : Call) → InRange c → estimated c ≤ 2_621_440
estimated-le (remark b) h = omega arith
estimated-le _ h = omega arith

module _ (W : Weights) ⦃D : AreDocumented W⦄ where
  -- In the documented ranges the proof size is the documented estimate: nothing saturates.
  pub proof_size-weight : (c : Call) → InRange c → W.proof_size (weight W c) ≡ estimated c
  unfolding weight
  proof_size-weight (remark b) h = simp weight_laws (omega (arith, saturate_of_le))
  proof_size-weight _ h = simp weight_laws (omega (arith, saturate_of_le))

  -- In the documented ranges, with storage as fast as documented, the execution takes at most a
  -- quarter of a second.
  pub ref_time-weight-le :
      D.read ≤ 25_000_000
      → D.write ≤ 100_000_000
      → (c : Call) → InRange c
      → W.ref_time (weight W c) ≤ 250_000_000_000
  unfolding weight
  ref_time-weight-le fast quick (set_storage i) h =
      simp weight_laws (omega (arith, saturate-le, mul-le-mul quick (u64_saturating_mul-le 1 i)))
  ref_time-weight-le fast quick (kill_storage i) h =
      simp weight_laws (omega (arith, saturate-le, mul-le-mul quick (u64_saturating_mul-le 1 i)))
  ref_time-weight-le fast quick (kill_prefix p) h = simp weight_laws (
      omega (
        arith,
        saturate-le,
        mul-le-mul fast (u64_saturating_mul-le 1 p),
        mul-le-mul quick (u64_saturating_mul-le 1 p),
      ))
  ref_time-weight-le fast quick (remark b) h = simp weight_laws (omega (arith, saturate-le))
  ref_time-weight-le fast quick _ h = simp weight_laws (omega (arith, saturate-le))

-- In the documented ranges the weight charges the documented accesses and those of the keys that are
-- overwritten, no more and no fewer.
pub weight-counting :
    (c : Call)
    → IsCounted c
    → weight counting c ≡ ((storage c).0 + (overwritten c).0, (storage c).1 + (overwritten c).1)
unfolding weight u64_saturating_mul saturate
weight-counting (set_storage i) h = ground arith
weight-counting (kill_storage i) h = ground arith
weight-counting (kill_prefix p) h = ground arith
weight-counting (remark b) h = ground arith
weight-counting _ h = ground arith
