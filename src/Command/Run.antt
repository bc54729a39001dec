-- ===== src/Command/Run.antt =====
-- `run` of polkadot-parachains/src/command.rs, as the choice that it makes: the work that a
-- subcommand is handed on to, and the runtime that this is done with. The commands themselves, the
-- runner and the node's parts are outside the repository: `Outside` holds what they answer.
pub mod Laws
use parachain.Base.{
  List, ℕ, Bool, true, false, String, ◌<>◌, Option, none, some, Result, ok, err, ◌>>=◌, ◌>>◌,
  if◌then◌else◌,
}
use mathlib.Core.Option.{get_or}
use parachain.Spec.Load.{DynSpec, is_shell, LoadError, message, panic, Json, load_spec}
use parachain.Service.Node.{Stop, error, Settings, Outcomes, new_partial}
use parachain.Command.RelayCli.{Extensions}

pub data BenchmarkCmd : Type 0 where
  pallet block storage machine other_benchmark : BenchmarkCmd

-- The two commands that export carry the chain of their own `--chain`.
pub data Subcommand : Type 0 where
  key build_spec check_block export_blocks export_state import_blocks revert : Subcommand
  purge_chain : Subcommand
  export_genesis_state export_genesis_wasm : Option String → Subcommand
  benchmark : BenchmarkCmd → Subcommand
  try_runtime : Subcommand

pub data Runtime : Type 0 where
  shell_runtime integritee_runtime : Runtime

-- `sp_version::RuntimeVersion`, without the generated list of APIs.
pub record RuntimeVersion : Type 0 where
  pub spec_name : String
  pub impl_name : String
  pub authoring_version : ℕ
  pub spec_version : ℕ
  pub impl_version : ℕ
  pub transaction_version : ℕ
  pub state_version : ℕ

-- `shell_runtime::VERSION`
unfoldable pub shell_version : RuntimeVersion
shell_version = record {
  spec_name = "integritee-parachain";
  impl_name = "integritee-shell";
  authoring_version = 0;
  spec_version = 12;
  impl_version = 0;
  transaction_version = 1;
  state_version = 0;
}

-- `parachain_runtime::VERSION`
unfoldable pub integritee_version : RuntimeVersion
integritee_version = record {
  spec_name = "integritee-parachain";
  impl_name = "integritee-full";
  authoring_version = 2;
  spec_version = 38;
  impl_version = 1;
  transaction_version = 6;
  state_version = 0;
}

unfoldable pub native_runtime_version : DynSpec → RuntimeVersion
unfolding shell_version integritee_version
native_runtime_version spec = if is_shell spec then shell_version else integritee_version

-- What is done in the end.
pub data Work : Type 0 where
  manage_keys write_spec purge : Work
  with_client : Subcommand → Runtime → Work
  write_genesis_state : DynSpec → ℕ → Work
  write_genesis_wasm : DynSpec → Work
  benchmark_pallet benchmark_block benchmark_storage : Runtime → Work
  benchmark_machine try_the_runtime : Work
  run_node : Runtime → ℕ → Work

pub record Features : Type 0 where
  pub runtime_benchmarks : Bool
  pub try_runtime_enabled : Bool

pub record Outside : Type 0 where
  -- `create_runner`, with the specification of its configuration.
  pub create_runner : Result LoadError DynSpec
  -- What `load_spec` needs: the code that was built in, and the reader of JSON files.
  pub wasm : Option (List ℕ)
  pub json : Json
  -- What the calls of `new_partial` answer, for the two runtimes.
  pub settings : Settings
  pub outcomes : Runtime → Outcomes LoadError
  pub create_relay_configuration : Result String (Unit {0})
  pub task_manager : Result String (Unit {0})
  pub get_extension : DynSpec → Option Extensions
  -- By the state version.
  pub generate_genesis_block : DynSpec → ℕ → Result String (Unit {0})

-- A run of calls without the calls: an error is returned, and a panic stays one.
abbrev pub how_it_ends : {A : Type 0} → Result (Stop LoadError) A → Result LoadError A
how_it_ends (ok a) = ok a
how_it_ends (err (error e)) = err e
how_it_ends (err (Stop.panic text)) = err (panic text)

abbrev pub map_err : {A : Type 0} → Result String A → (String → String) → Result LoadError A
map_err (ok a) f = ok a
map_err (err e) f = err (message (f e))

-- `chain_spec.is_shell()`, where the macros and the branches choose the runtime.
unfoldable pub runtime_of : DynSpec → Runtime
runtime_of spec = if is_shell spec then shell_runtime else integritee_runtime

module _ (F : Features) (O : Outside) where
  abbrev pub relay_configuration : Result LoadError (Unit {0})
  relay_configuration =
      map_err O.create_relay_configuration (λ e. "Relay chain argument error: " <> e)

  unfoldable pub new_partial_for : Runtime → Result LoadError (Unit {0})
  new_partial_for r = how_it_ends (new_partial O.settings (O.outcomes r)).0

  -- The macros.
  unfoldable pub construct_async_run : (Runtime → Work) → Result LoadError Work
  unfolding runtime_of
  construct_async_run work =
      O.create_runner >>= λ spec. new_partial_for (runtime_of spec) >> ok (work (runtime_of spec))

  abbrev pub construct_benchmark_partials : DynSpec → (Runtime → Work) → Result LoadError Work
  construct_benchmark_partials spec work =
      new_partial_for (runtime_of spec) >> ok (work (runtime_of spec))

  unfoldable pub run_benchmark : BenchmarkCmd → DynSpec → Result LoadError Work
  unfolding runtime_of
  run_benchmark pallet spec =
      if F.runtime_benchmarks
      then ok (benchmark_pallet (runtime_of spec))
      else err (
          message
            "Benchmarking wasn't enabled when building the node. You can enable it with `--features runtime-benchmarks`.")
  run_benchmark block spec = construct_benchmark_partials spec benchmark_block
  run_benchmark storage spec =
      if F.runtime_benchmarks
      then construct_benchmark_partials spec benchmark_storage
      else err (message "Compile with --features=runtime-benchmarks to enable storage benchmarks.")
  run_benchmark machine spec = ok benchmark_machine
  run_benchmark other_benchmark spec = err (message "Benchmarking sub-command unsupported")

  -- The arm without a subcommand.
  unfoldable pub start_node : DynSpec → Result LoadError Work
  unfolding runtime_of native_runtime_version
  start_node spec = elim (O.get_extension spec) [
    | none ↦ err (message "Could not find parachain extension in chain-spec.")
    | some extension ↦
        map_err (O.generate_genesis_block spec (native_runtime_version spec).state_version) (λ e. e)
        >> (relay_configuration >> ok (run_node (runtime_of spec) extension.para_id))
  ]

  unfoldable pub run : Option Subcommand → Result LoadError Work
  unfolding construct_async_run run_benchmark start_node native_runtime_version
  run (some key) = ok manage_keys
  run (some build_spec) = O.create_runner >> ok write_spec
  run (some check_block) = construct_async_run (with_client check_block)
  run (some export_blocks) = construct_async_run (with_client export_blocks)
  run (some export_state) = construct_async_run (with_client export_state)
  run (some import_blocks) = construct_async_run (with_client import_blocks)
  run (some revert) = construct_async_run (with_client revert)
  run (some purge_chain) = O.create_runner >> (relay_configuration >> ok purge)
  run (some (export_genesis_state chain)) =
      O.create_runner
      >> (load_spec O.wasm O.json (get_or chain "") >>= λ spec.
          ok (write_genesis_state spec (native_runtime_version spec).state_version))
  run (some (export_genesis_wasm chain)) =
      O.create_runner
      >> (load_spec O.wasm O.json (get_or chain "") >>= λ spec. ok (write_genesis_wasm spec))
  run (some (benchmark cmd)) = O.create_runner >>= λ spec. run_benchmark cmd spec
  run (some try_runtime) =
      if F.try_runtime_enabled
      then (O.create_runner >> (map_err O.task_manager (λ e. "Error: " <> e) >> ok try_the_runtime))
      else err (
          message
            "Try-runtime was not enabled when building the node. You can enable it with `--features try-runtime`.")
  run none = O.create_runner >>= λ spec. start_node spec
