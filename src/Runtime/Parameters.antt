-- ===== src/Runtime/Parameters.antt =====
-- The `parameter_types!` of polkadot-parachains/integritee-runtime/src/lib.rs for vesting, the
-- scheduler, the treasury, bounties, the collectives, democracy and the Integritee pallets. Periods
-- stand in Runtime/Periods, weights in Runtime/BlockWeights, and parts per million are numbers.
use parachain.Base.{ℕ, ◌*◌, ◌/◌, ◌-◌, ◌^◌, Bool, true, String}
use parachain.Runtime.Fees.{teer, milliteer}

-- `MAX_VESTING_SCHEDULES`
unfoldable pub max_vesting_schedules : ℕ
max_vesting_schedules = 28

unfoldable pub max_scheduled_per_block : ℕ
max_scheduled_per_block = 50

unfoldable pub max_authorities : ℕ
max_authorities = 100_000

pub record TreasuryParameters : Type 0 where
  pub proposal_bond : ℕ
  pub proposal_bond_minimum : ℕ
  pub proposal_bond_maximum : ℕ
  pub burn : ℕ
  pub data_deposit_per_byte : ℕ
  pub treasury_pallet_id : String
  pub max_approvals : ℕ
  pub max_balance : ℕ

unfoldable pub treasury_parameters : TreasuryParameters
treasury_parameters = record {
  proposal_bond = 50_000;
  proposal_bond_minimum = 100 * milliteer;
  proposal_bond_maximum = 500 * teer;
  burn = 10_000;
  data_deposit_per_byte = 100 * milliteer;
  treasury_pallet_id = "py/trsry";
  max_approvals = 10;
  max_balance = 2 ^ 128 - 1;
}

pub record BountyParameters : Type 0 where
  pub bounty_deposit_base : ℕ
  pub maximum_reason_length : ℕ
  pub curator_deposit_multiplier : ℕ
  pub curator_deposit_min : ℕ
  pub curator_deposit_max : ℕ
  pub bounty_value_minimum : ℕ

unfoldable pub bounty_parameters : BountyParameters
bounty_parameters = record {
  bounty_deposit_base = 1 * teer;
  maximum_reason_length = 16_384;
  curator_deposit_multiplier = 500_000;
  curator_deposit_min = 1 * teer;
  curator_deposit_max = 100 * teer;
  bounty_value_minimum = 100 * teer;
}

pub record ChildBountyParameters : Type 0 where
  pub max_active_child_bounty_count : ℕ
  pub child_bounty_value_minimum : ℕ

unfoldable pub child_bounty_parameters : ChildBountyParameters
unfolding bounty_parameters
child_bounty_parameters = record {
  max_active_child_bounty_count = 100;
  child_bounty_value_minimum = bounty_parameters.bounty_value_minimum / 10;
}

pub record CollectiveParameters : Type 0 where
  pub max_proposals : ℕ
  pub max_members : ℕ

unfoldable pub council_parameters : CollectiveParameters
council_parameters = record { max_proposals = 100; max_members = 100 }

unfoldable pub technical_parameters : CollectiveParameters
technical_parameters = record { max_proposals = 100; max_members = 100 }

pub record DemocracyParameters : Type 0 where
  pub minimum_deposit : ℕ
  pub instant_allowed : Bool
  pub max_votes : ℕ
  pub max_public_proposals : ℕ

unfoldable pub democracy_parameters : DemocracyParameters
democracy_parameters = record {
  minimum_deposit = 100 * teer;
  instant_allowed = true;
  max_votes = 100;
  max_public_proposals = 100;
}

-- `MaxDeposits` and `MaxBlacklisted` of the configuration of `pallet_democracy`.
unfoldable pub max_deposits : ℕ
max_deposits = 100

unfoldable pub max_blacklisted : ℕ
max_blacklisted = 100

-- The Integritee pallets; times in milliseconds.
pub record TeerexParameters : Type 0 where
  pub moments_per_day : ℕ
  pub max_attestation_renewal_period : ℕ

unfoldable pub teerex_parameters : TeerexParameters
teerex_parameters = record {
  moments_per_day = 86_400_000;
  max_attestation_renewal_period = 172_800_000;
}

unfoldable pub early_block_proposal_lenience : ℕ
early_block_proposal_lenience = 100

pub record TeeracleParameters : Type 0 where
  pub max_whitelisted_releases : ℕ
  pub max_oracle_blob_len : ℕ

unfoldable pub teeracle_parameters : TeeracleParameters
teeracle_parameters = record { max_whitelisted_releases = 10; max_oracle_blob_len = 4096 }
