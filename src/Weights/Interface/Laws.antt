-- ===== src/Weights/Interface/Laws.antt =====
-- What is documented of weights, and the rules that the proofs about weight functions use.
use parachain.Base.{ℕ, ◌+◌, ◌*◌, ◌≤◌, ◌≡◌, arith}
use parachain.Weights.Interface.{Weights, u64_max, saturate, u64_saturating_mul}

pub saturate-le : (n : ℕ) → saturate n ≤ n
unfolding saturate
saturate-le n = ground arith

pub saturate_of_le : (n : ℕ) → n ≤ u64_max → saturate n ≡ n
unfolding saturate
saturate_of_le n h = ground arith

pub u64_saturating_mul-le : (a b : ℕ) → u64_saturating_mul a b ≤ a * b
unfolding u64_saturating_mul
u64_saturating_mul-le a b = saturate-le (a * b)

-- Both parts of a weight are `u64`; sums and multiples of weights saturate in each part. A read
-- and a write of the database have a cost each, in reference time alone.
pub record AreDocumented (W : Weights) : Type 0 where
  pub read : ℕ
  pub write : ℕ
  pub ref_time-from_parts : (t p : ℕ) → W.ref_time (W.from_parts t p) ≡ t
  pub proof_size-from_parts : (t p : ℕ) → W.proof_size (W.from_parts t p) ≡ p
  pub ref_time-saturating_add :
      (a b : W.Weight) → W.ref_time (W.saturating_add a b) ≡ saturate (W.ref_time a + W.ref_time b)
  pub proof_size-saturating_add :
      (a b : W.Weight)
      → W.proof_size (W.saturating_add a b) ≡ saturate (W.proof_size a + W.proof_size b)
  pub ref_time-saturating_mul :
      (a : W.Weight) (n : ℕ) → W.ref_time (W.saturating_mul a n) ≡ saturate (W.ref_time a * n)
  pub proof_size-saturating_mul :
      (a : W.Weight) (n : ℕ) → W.proof_size (W.saturating_mul a n) ≡ saturate (W.proof_size a * n)
  pub ref_time-reads : (n : ℕ) → W.ref_time (W.reads n) ≡ saturate (read * n)
  pub proof_size-reads : (n : ℕ) → W.proof_size (W.reads n) ≡ 0
  pub ref_time-writes : (n : ℕ) → W.ref_time (W.writes n) ≡ saturate (write * n)
  pub proof_size-writes : (n : ℕ) → W.proof_size (W.writes n) ≡ 0

-- The same as rules that `simp` takes bare.
module _ (W : Weights) ⦃D : AreDocumented W⦄ where
  pub time_of_parts : (t p : ℕ) → W.ref_time (W.from_parts t p) ≡ t
  time_of_parts = D.ref_time-from_parts

  pub proof_of_parts : (t p : ℕ) → W.proof_size (W.from_parts t p) ≡ p
  proof_of_parts = D.proof_size-from_parts

  pub time_of_add :
      (a b : W.Weight) → W.ref_time (W.saturating_add a b) ≡ saturate (W.ref_time a + W.ref_time b)
  time_of_add = D.ref_time-saturating_add

  pub proof_of_add :
      (a b : W.Weight)
      → W.proof_size (W.saturating_add a b) ≡ saturate (W.proof_size a + W.proof_size b)
  proof_of_add = D.proof_size-saturating_add

  pub time_of_mul :
      (a : W.Weight) (n : ℕ) → W.ref_time (W.saturating_mul a n) ≡ saturate (W.ref_time a * n)
  time_of_mul = D.ref_time-saturating_mul

  pub proof_of_mul :
      (a : W.Weight) (n : ℕ) → W.proof_size (W.saturating_mul a n) ≡ saturate (W.proof_size a * n)
  proof_of_mul = D.proof_size-saturating_mul

  pub time_of_reads : (n : ℕ) → W.ref_time (W.reads n) ≡ saturate (D.read * n)
  time_of_reads = D.ref_time-reads

  pub proof_of_reads : (n : ℕ) → W.proof_size (W.reads n) ≡ 0
  proof_of_reads = D.proof_size-reads

  pub time_of_writes : (n : ℕ) → W.ref_time (W.writes n) ≡ saturate (D.write * n)
  time_of_writes = D.ref_time-writes

  pub proof_of_writes : (n : ℕ) → W.proof_size (W.writes n) ≡ 0
  proof_of_writes = D.proof_size-writes

pub ruleset weight_laws = (
  time_of_parts, proof_of_parts, time_of_add, proof_of_add, time_of_mul, proof_of_mul,
  time_of_reads, proof_of_reads, time_of_writes, proof_of_writes,
)
