-- ===== src/Runtime/Apis/Features.antt =====
-- What the features `try-runtime` and `runtime-benchmarks` add to the interface of the full runtime in
-- polkadot-parachains/integritee-runtime/src/lib.rs, and the pallets that `define_benchmarks!` lists.
-- The macros of `frame_benchmarking` and the executive are outside the repository: `FeatureOutside`
-- holds their functions. The keys that are not counted are texts of hexadecimal digits.
pub mod Laws
use parachain.Base.{ℕ, Bool, String, List, [], ◌∷◌, Result, ok, err, ◌>>=◌}
use parachain.Xcm.Barrier.{Weight}
use parachain.Runtime.BlockWeights.{maximum_block_weight}
use parachain.Runtime.Pallets.{
  Pallet, system, balances, bounties, child_bounties, claims, council, democracy, multisig,
  preimage, proxy, scheduler, sidechain, teeracle, teerex, enclave_bridge, timestamp, treasury,
  vesting, polkadot_xcm, utility,
}
use parachain.Runtime.Apis.{Encoded}

-- The technical committee is left out: its results would go to the council's file.
abbrev pub benchmarked : List Pallet
benchmarked =
    system ∷ balances ∷ bounties ∷ child_bounties ∷ claims ∷ council ∷ democracy ∷ multisig
    ∷ preimage ∷ proxy ∷ scheduler ∷ sidechain ∷ teeracle ∷ teerex ∷ enclave_bridge ∷ timestamp
    ∷ treasury ∷ vesting ∷ polkadot_xcm ∷ utility ∷ []

-- Block number, total issuance, execution phase, event count and events.
abbrev pub whitelist : List String
whitelist =
    "26aa394eea5630e07c48ae0c9558cef702a5c1b19ab7a04f536c519aca4983ac"
    ∷ "c2261276cc9d1f8598ea4b6a74b15c2f57c875e4cff74148e4628f264b974c80"
    ∷ "26aa394eea5630e07c48ae0c9558cef7ff553b5a9862a516939d82b3d3d8661a"
    ∷ "26aa394eea5630e07c48ae0c9558cef70a98fdbe9ce6c55837576c60c7af3850"
    ∷ "26aa394eea5630e07c48ae0c9558cef780d41e5e16056765bc8461851072c9d7" ∷ []

pub record FeatureOutside (State : Type 0) : Type 0 where
  pub try_runtime_upgrade : ℕ → State → Result String (Weight × State)
  pub try_execute_block : Encoded → Bool → Bool → ℕ → State → Result String (Weight × State)
  pub list_benchmarks : List Pallet → Bool → List Encoded
  pub storage_info : List Encoded
  -- `add_benchmarks!` returns early with an error.
  pub add_benchmarks :
      List Pallet → Encoded → List String → State → Result String (List Encoded × State)

module _ {State : Type 0} (O : FeatureOutside State) where
  -- `unwrap` traps on an error.
  unfoldable pub on_runtime_upgrade : ℕ → ℕ → ℕ → State → Result String ((Weight × Weight) × State)
  on_runtime_upgrade weight_ref_time_per_second max_pov_size checks s =
      O.try_runtime_upgrade checks s >>= λ (weight, s').
      ok ((weight, maximum_block_weight weight_ref_time_per_second max_pov_size), s')

  unfoldable pub try_execute_block :
      Encoded → Bool → Bool → ℕ → State → Result String (Weight × State)
  try_execute_block block state_root_check signature_check select s =
      O.try_execute_block block state_root_check signature_check select s

  unfoldable pub benchmark_metadata : Bool → List Encoded × List Encoded
  benchmark_metadata extra = (O.list_benchmarks benchmarked extra, O.storage_info)

  abbrev some_batches : List Encoded × State → Result String (List Encoded × State)
  some_batches ([], s) = err "Benchmark not found for this pallet."
  some_batches (b ∷ batches, s) = ok (b ∷ batches, s)

  unfoldable pub dispatch_benchmark : Encoded → State → Result String (List Encoded × State)
  dispatch_benchmark config s = O.add_benchmarks benchmarked config whitelist s >>= some_batches
