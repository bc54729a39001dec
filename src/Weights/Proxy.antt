-- ===== src/Weights/Proxy.antt =====
-- The weight functions of `pallet_proxy`
-- (polkadot-parachains/integritee-runtime/src/weights/pallet_proxy.rs).
pub mod Laws
pub mod Storage
use parachain.Base.{ℕ}
use parachain.Weights.Interface.{Weights}

module _ (W : Weights) where
  open W use {Weight, from_parts, saturating_add, saturating_mul, reads, writes}

  infixl 65 ◌⊕◌
  abbrev ◌⊕◌ : Weight → Weight → Weight
  a ⊕ b = saturating_add a b

  unfoldable pub proxy : ℕ → Weight
  proxy _ = from_parts 23_018_486 0 ⊕ from_parts 0 4706 ⊕ reads 1

  unfoldable pub proxy_announced : ℕ → ℕ → Weight
  proxy_announced a p =
      from_parts 35_819_455 0
      ⊕ from_parts 0 5698
      ⊕ saturating_mul (from_parts 190_996 0) a
      ⊕ saturating_mul (from_parts 48_725 0) p
      ⊕ reads 3
      ⊕ writes 2

  unfoldable pub remove_announcement : ℕ → ℕ → Weight
  remove_announcement a p =
      from_parts 24_352_886 0
      ⊕ from_parts 0 5698
      ⊕ saturating_mul (from_parts 164_553 0) a
      ⊕ saturating_mul (from_parts 3472 0) p
      ⊕ reads 2
      ⊕ writes 2

  unfoldable pub reject_announcement : ℕ → ℕ → Weight
  reject_announcement a p =
      from_parts 22_928_870 0
      ⊕ from_parts 0 5698
      ⊕ saturating_mul (from_parts 242_891 0) a
      ⊕ saturating_mul (from_parts 45_575 0) p
      ⊕ reads 2
      ⊕ writes 2

  unfoldable pub announce : ℕ → ℕ → Weight
  announce a p =
      from_parts 29_549_711 0
      ⊕ from_parts 0 5698
      ⊕ saturating_mul (from_parts 529_586 0) a
      ⊕ saturating_mul (from_parts 149_137 0) p
      ⊕ reads 3
      ⊕ writes 2

  unfoldable pub add_proxy : ℕ → Weight
  add_proxy p =
      from_parts 27_818_270 0
      ⊕ from_parts 0 4706
      ⊕ saturating_mul (from_parts 34_236 0) p
      ⊕ reads 1
      ⊕ writes 1

  unfoldable pub remove_proxy : ℕ → Weight
  remove_proxy p =
      from_parts 27_601_107 0
      ⊕ from_parts 0 4706
      ⊕ saturating_mul (from_parts 41_162 0) p
      ⊕ reads 1
      ⊕ writes 1

  unfoldable pub remove_proxies : ℕ → Weight
  remove_proxies p =
      from_parts 24_222_274 0
      ⊕ from_parts 0 4706
      ⊕ saturating_mul (from_parts 10_655 0) p
      ⊕ reads 1
      ⊕ writes 1

  unfoldable pub create_pure : ℕ → Weight
  create_pure p =
      from_parts 28_643_514 0
      ⊕ from_parts 0 4706
      ⊕ saturating_mul (from_parts 41_997 0) p
      ⊕ reads 1
      ⊕ writes 1

  unfoldable pub kill_pure : ℕ → Weight
  kill_pure p =
      from_parts 24_880_619 0
      ⊕ from_parts 0 4706
      ⊕ saturating_mul (from_parts 45_192 0) p
      ⊕ reads 1
      ⊕ writes 1
