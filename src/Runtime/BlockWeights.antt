-- ===== src/Runtime/BlockWeights.antt =====
-- The weights of a block: `MAXIMUM_BLOCK_WEIGHT` and the ratios of
-- polkadot-parachains/common/src/lib.rs, `RuntimeBlockWeights` and the weights reserved for messages
-- of polkadot-parachains/integritee-runtime/src/lib.rs. The reference time of a second, the maximal
-- size of a proof and the multiplication by a `Perbill`, given by its parts of 10^9, are outside the
-- repository, hence parameters.
pub mod Laws
use parachain.Base.{ℕ, ◌+◌, ◌-◌, ◌*◌, ◌/◌, Option, none, some}
use parachain.Xcm.Barrier.{Weight}

-- Five percent and 75 percent, in parts of 10^9.
abbrev pub average_on_initialize_ratio : ℕ
average_on_initialize_ratio = 50_000_000

abbrev pub normal_dispatch_ratio : ℕ
normal_dispatch_ratio = 750_000_000

-- The two classes that are configured apart, with the fields that are set.
pub record WeightsPerClass : Type 0 where
  pub max_total : Option Weight
  pub reserved : Option Weight

pub record BlockWeights : Type 0 where
  pub normal : WeightsPerClass
  pub operational : WeightsPerClass
  pub avg_block_initialization : ℕ

module _ (weight_ref_time_per_second max_pov_size : ℕ) where
  abbrev pub maximum_block_weight : Weight
  maximum_block_weight = record {
    ref_time = weight_ref_time_per_second / 2;
    proof_size = max_pov_size;
  }

  -- `ReservedXcmpWeight` and `ReservedDmpWeight`, both a quarter.
  abbrev pub reserved_xcmp_weight : Weight
  reserved_xcmp_weight = record {
    ref_time = maximum_block_weight.ref_time / 4;
    proof_size = maximum_block_weight.proof_size / 4;
  }

  abbrev pub reserved_dmp_weight : Weight
  reserved_dmp_weight = record {
    ref_time = maximum_block_weight.ref_time / 4;
    proof_size = maximum_block_weight.proof_size / 4;
  }

  module _ (mul_perbill : ℕ → ℕ → ℕ) where
    -- `NORMAL_DISPATCH_RATIO * MAXIMUM_BLOCK_WEIGHT`, in both components.
    abbrev pub normal_weight : Weight
    normal_weight = record {
      ref_time = mul_perbill normal_dispatch_ratio maximum_block_weight.ref_time;
      proof_size = mul_perbill normal_dispatch_ratio maximum_block_weight.proof_size;
    }

    -- `Perbill::from_percent(80)` and `Perbill::from_percent(50)` of `max_block`, which is the largest
    -- `max_total` of a class: the maximal weight.
    unfoldable pub maximum_scheduler_weight : Weight
    maximum_scheduler_weight = record {
      ref_time = mul_perbill 800_000_000 maximum_block_weight.ref_time;
      proof_size = mul_perbill 800_000_000 maximum_block_weight.proof_size;
    }

    unfoldable pub max_proposal_weight : Weight
    max_proposal_weight = record {
      ref_time = mul_perbill 500_000_000 maximum_block_weight.ref_time;
      proof_size = mul_perbill 500_000_000 maximum_block_weight.proof_size;
    }

    -- The subtraction of two weights is that of their components.
    unfoldable pub runtime_block_weights : BlockWeights
    runtime_block_weights = record {
      normal = record { max_total = some normal_weight; reserved = none };
      operational = record {
        max_total = some maximum_block_weight;
        reserved = some (record {
          ref_time = maximum_block_weight.ref_time - normal_weight.ref_time;
          proof_size = maximum_block_weight.proof_size - normal_weight.proof_size;
        });
      };
      avg_block_initialization = average_on_initialize_ratio;
    }
