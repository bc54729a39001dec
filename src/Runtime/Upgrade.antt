-- ===== src/Runtime/Upgrade.antt =====
-- What the two runtimes configure alike, block by block of `parameter_types!`:
-- polkadot-parachains/integritee-runtime/src/lib.rs and polkadot-parachains/shell-runtime/src/lib.rs.
-- The block weights of both are built by the same lines; `max_with_normal_ratio` is given by its
-- arguments.
pub mod Laws
use parachain.Base.{ℕ, ◌-◌, ◌*◌, ◌/◌, List, [], ◌∷◌, Option, none, some}
use parachain.Xcm.Barrier.{Weight}
use parachain.Runtime.Periods.{slot_duration}
use parachain.Runtime.Fees.{teer, milliteer, microteer}
use parachain.Runtime.BlockWeights.{
  WeightsPerClass, BlockWeights, average_on_initialize_ratio, normal_dispatch_ratio,
  maximum_block_weight, normal_weight, runtime_block_weights,
}

-- `Version` stands in Command/Run.
pub record SystemParameters : Type 0 where
  pub block_hash_count : ℕ
  pub max_with_normal_ratio : ℕ × ℕ
  pub block_weights : BlockWeights
  pub ss58_prefix : ℕ

-- Those that both runtimes have.
pub record BalancesParameters : Type 0 where
  pub existential_deposit : ℕ
  pub transfer_fee : ℕ
  pub creation_fee : ℕ
  pub transaction_byte_fee : ℕ
  pub max_locks : ℕ
  pub max_reserves : ℕ

unfoldable pub balances_parameters : BalancesParameters
balances_parameters = record {
  existential_deposit = milliteer;
  transfer_fee = milliteer;
  creation_fee = milliteer;
  transaction_byte_fee = microteer;
  max_locks = 50;
  max_reserves = 50;
}

unfoldable pub shell_balances_parameters : BalancesParameters
shell_balances_parameters = record {
  existential_deposit = milliteer;
  transfer_fee = milliteer;
  creation_fee = milliteer;
  transaction_byte_fee = microteer;
  max_locks = 50;
  max_reserves = 50;
}

-- The checks of a signed transaction, in the order in which what they sign is encoded.
pub data SignedExtension : Type 0 where
  check_non_zero_sender check_spec_version check_tx_version check_genesis : SignedExtension
  check_era check_nonce check_weight charge_transaction_payment : SignedExtension

unfoldable pub signed_extra : List SignedExtension
signed_extra =
    check_non_zero_sender ∷ check_spec_version ∷ check_tx_version ∷ check_genesis ∷ check_era
    ∷ check_nonce ∷ check_weight ∷ charge_transaction_payment ∷ []

unfoldable pub shell_signed_extra : List SignedExtension
shell_signed_extra =
    check_non_zero_sender ∷ check_spec_version ∷ check_tx_version ∷ check_genesis ∷ check_era
    ∷ check_nonce ∷ check_weight ∷ charge_transaction_payment ∷ []

unfoldable pub min_vested_transfer : ℕ
min_vested_transfer = 1 * teer

unfoldable pub shell_min_vested_transfer : ℕ
shell_min_vested_transfer = 100 * teer

abbrev pub shell_minimum_period : ℕ
shell_minimum_period = slot_duration / 2

module _ (weight_ref_time_per_second max_pov_size : ℕ) where
  abbrev pub shell_reserved_xcmp_weight : Weight
  shell_reserved_xcmp_weight =
      let whole = maximum_block_weight weight_ref_time_per_second max_pov_size in
      record { ref_time = whole.ref_time / 4; proof_size = whole.proof_size / 4 }

  abbrev pub shell_reserved_dmp_weight : Weight
  shell_reserved_dmp_weight =
      let whole = maximum_block_weight weight_ref_time_per_second max_pov_size in
      record { ref_time = whole.ref_time / 4; proof_size = whole.proof_size / 4 }

  module _ (mul_perbill : ℕ → ℕ → ℕ) where
    unfoldable pub system_parameters : SystemParameters
    system_parameters = record {
      block_hash_count = 250;
      max_with_normal_ratio = (5 * 1024 * 1024, normal_dispatch_ratio);
      block_weights = runtime_block_weights weight_ref_time_per_second max_pov_size mul_perbill;
      ss58_prefix = 13;
    }

    unfoldable pub shell_system_parameters : SystemParameters
    shell_system_parameters =
        let whole = maximum_block_weight weight_ref_time_per_second max_pov_size in
        let for_normal = normal_weight weight_ref_time_per_second max_pov_size mul_perbill in
        record {
          block_hash_count = 250;
          max_with_normal_ratio = (5 * 1024 * 1024, normal_dispatch_ratio);
          block_weights = record {
            normal = record { max_total = some for_normal; reserved = none };
            operational = record {
              max_total = some whole;
              reserved = some (record {
                ref_time = whole.ref_time - for_normal.ref_time;
                proof_size = whole.proof_size - for_normal.proof_size;
              });
            };
            avg_block_initialization = average_on_initialize_ratio;
          };
          ss58_prefix = 13;
        }
