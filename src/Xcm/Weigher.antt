-- ===== src/Xcm/Weigher.antt =====
-- How much an XCM message weighs: `Weigher` and `UnitWeightCost` of
-- polkadot-parachains/integritee-runtime/src/xcm_config.rs with `MaxInstructions` of its lib.rs, and
-- the shell's copies. `FixedWeightBounds` is of the `xcm-builder` crate, hence a parameter: it is
-- given the cost of an instruction, the most instructions, and the message.
pub mod Laws
use parachain.Base.{ℕ, ◌*◌, Option}
use parachain.Xcm.Barrier.{Weight}

abbrev pub default_proof_size : ℕ
default_proof_size = 128 * 1024

unfoldable pub unit_weight_cost : Weight
unit_weight_cost = record { ref_time = 200_000_000; proof_size = default_proof_size }

unfoldable pub max_instructions : ℕ
max_instructions = 100

abbrev pub shell_default_proof_size : ℕ
shell_default_proof_size = 128 * 1024

unfoldable pub shell_unit_weight_cost : Weight
shell_unit_weight_cost = record { ref_time = 200_000_000; proof_size = shell_default_proof_size }

unfoldable pub shell_max_instructions : ℕ
shell_max_instructions = 100

module _ {Message : Type 0} (fixed_weight_bounds : Weight → ℕ → Message → Option Weight) where
  -- `FixedWeightBounds<UnitWeightCost, RuntimeCall, MaxInstructions>`, as in the executor, `pallet_xcm`
  -- and `orml_xtokens`.
  unfoldable pub weigher : Message → Option Weight
  weigher message = fixed_weight_bounds unit_weight_cost max_instructions message

  unfoldable pub shell_weigher : Message → Option Weight
  shell_weigher message = fixed_weight_bounds shell_unit_weight_cost shell_max_instructions message
