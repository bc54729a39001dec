-- ===== src/Weights/Interface.antt =====
-- What the weight functions use of `frame_support::weights`, outside the repository, and the
-- language's saturating arithmetic on `u64`. `reads` and `writes` are those of
-- `T::DbWeight::get()`.
pub mod Laws
use parachain.Base.{ℕ, ◌+◌, ◌*◌, leb, if◌then◌else◌}

abbrev pub u64_max : ℕ
u64_max = 18_446_744_073_709_551_615

unfoldable pub saturate : ℕ → ℕ
saturate n = if leb n u64_max then n else u64_max

unfoldable pub u64_saturating_mul : ℕ → ℕ → ℕ
unfolding saturate
u64_saturating_mul a b = saturate (a * b)

pub record Weights : Type 1 where
  pub Weight : Type 0
  pub from_parts : ℕ → ℕ → Weight
  pub saturating_add : Weight → Weight → Weight
  pub saturating_mul : Weight → ℕ → Weight
  pub reads : ℕ → Weight
  pub writes : ℕ → Weight
  pub ref_time : Weight → ℕ
  pub proof_size : Weight → ℕ

-- An instance that keeps only the numbers of reads and of writes.
abbrev pub counting : Weights
counting = record {
  Weight = ℕ × ℕ;
  from_parts = λ t p. (0, 0);
  saturating_add = λ a b. (a.0 + b.0, a.1 + b.1);
  saturating_mul = λ a n. (a.0 * n, a.1 * n);
  reads = λ n. (n, 0);
  writes = λ n. (0, n);
  ref_time = λ a. 0;
  proof_size = λ a. 0;
}
