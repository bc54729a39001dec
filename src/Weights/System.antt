-- ===== src/Weights/System.antt =====
-- The weight functions of `frame_system`
-- (polkadot-parachains/integritee-runtime/src/weights/frame_system.rs).
pub mod Laws
pub mod Storage
use parachain.Base.{ℕ}
use parachain.Weights.Interface.{Weights, u64_saturating_mul}

module _ (W : Weights) where
  open W use {Weight, from_parts, saturating_add, saturating_mul, reads, writes}

  infixl 65 ◌⊕◌
  abbrev ◌⊕◌ : Weight → Weight → Weight
  a ⊕ b = saturating_add a b

  unfoldable pub remark : ℕ → Weight
  remark b = from_parts 1_914_000 0 ⊕ from_parts 0 0 ⊕ saturating_mul (from_parts 229 0) b

  unfoldable pub remark_with_event : ℕ → Weight
  remark_with_event b =
      from_parts 6_175_000 0 ⊕ from_parts 0 0 ⊕ saturating_mul (from_parts 1183 0) b

  unfoldable pub set_heap_pages : Weight
  set_heap_pages = from_parts 3_135_000 0 ⊕ from_parts 0 1485 ⊕ reads 1 ⊕ writes 2

  unfoldable pub set_storage : ℕ → Weight
  set_storage i =
      from_parts 1_866_000 0
      ⊕ from_parts 0 0
      ⊕ saturating_mul (from_parts 642_113 0) i
      ⊕ writes (u64_saturating_mul 1 i)

  unfoldable pub kill_storage : ℕ → Weight
  kill_storage i =
      from_parts 1_865_000 0
      ⊕ from_parts 0 0
      ⊕ saturating_mul (from_parts 456_842 0) i
      ⊕ writes (u64_saturating_mul 1 i)

  unfoldable pub kill_prefix : ℕ → Weight
  kill_prefix p =
      from_parts 3_538_000 0
      ⊕ from_parts 0 88
      ⊕ saturating_mul (from_parts 956_812 0) p
      ⊕ reads (u64_saturating_mul 1 p)
      ⊕ writes (u64_saturating_mul 1 p)
      ⊕ saturating_mul (from_parts 0 70) p
