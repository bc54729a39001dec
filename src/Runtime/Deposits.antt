-- ===== src/Runtime/Deposits.antt =====
-- The `parameter_types!` for multisigs, proxies and preimages of
-- polkadot-parachains/integritee-runtime/src/lib.rs: what each thing in storage has reserved for it.
pub mod Laws
use parachain.Base.{ℕ, ◌*◌}
use parachain.Runtime.Fees.{teer, deposit}

pub record MultisigParameters : Type 0 where
  pub deposit_base : ℕ
  pub deposit_factor : ℕ
  pub max_signatories : ℕ

unfoldable pub multisig_parameters : MultisigParameters
multisig_parameters = record {
  deposit_base = deposit 1 88;
  deposit_factor = deposit 0 32;
  max_signatories = 10;
}

pub record ProxyParameters : Type 0 where
  pub proxy_deposit_base : ℕ
  pub proxy_deposit_factor : ℕ
  pub max_proxies : ℕ
  pub announcement_deposit_base : ℕ
  pub announcement_deposit_factor : ℕ
  pub max_pending : ℕ

unfoldable pub proxy_parameters : ProxyParameters
proxy_parameters = record {
  proxy_deposit_base = deposit 1 8;
  proxy_deposit_factor = deposit 0 33;
  max_proxies = 32;
  announcement_deposit_base = deposit 1 8;
  announcement_deposit_factor = deposit 0 66;
  max_pending = 32;
}

pub record PreimageParameters : Type 0 where
  pub base_deposit : ℕ
  pub byte_deposit : ℕ

unfoldable pub preimage_parameters : PreimageParameters
preimage_parameters = record { base_deposit = 1 * teer; byte_deposit = deposit 0 1 }
