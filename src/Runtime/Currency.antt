-- ===== src/Runtime/Currency.antt =====
-- The constants of polkadot-parachains/common/src/currency.rs.
use parachain.Base.{ℕ, ◌*◌, ◌/◌}

abbrev pub units : ℕ
units = 1_000_000_000_000

abbrev pub cents : ℕ
cents = units / 30_000

abbrev pub grand : ℕ
grand = cents * 100_000

abbrev pub millicents : ℕ
millicents = cents / 1_000

abbrev pub existential_deposit : ℕ
existential_deposit = cents / 10
