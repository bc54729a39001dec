-- ===== src/Command/Run/Laws.antt =====
-- What `run` (polkadot-parachains/src/command.rs) hands on, for every subcommand.
use parachain.Base.{
  ℕ, ◌≡◌, refl, ◌↔◌, Bool, true, false, Option, none, some, Result, ok, err, ◌>>=◌, ◌>>◌, arith,
}
use mathlib.Core.Option.{get_or}
use parachain.Spec.Load.{DynSpec, is_shell, LoadError, load_spec}
use parachain.Command.RelayCli.{Extensions}
use parachain.Command.Run.{
  BenchmarkCmd, pallet, block, storage, machine, other_benchmark, Subcommand, key, build_spec,
  check_block, export_blocks, export_state, import_blocks, revert, purge_chain,
  export_genesis_state, export_genesis_wasm, benchmark, try_runtime, Runtime, shell_runtime, Work,
  with_client, benchmark_pallet, benchmark_block, benchmark_storage, run_node, Features, Outside,
  runtime_of, native_runtime_version, construct_async_run, new_partial_for, run_benchmark,
  start_node, run,
}

-- The runtime that a work is done with, if it needs one.
abbrev pub runtime_in : Work → Option Runtime
runtime_in (with_client c r) = some r
runtime_in (benchmark_pallet r) = some r
runtime_in (benchmark_block r) = some r
runtime_in (benchmark_storage r) = some r
runtime_in (run_node r id) = some r
runtime_in _ = none

-- The subcommands that no runner is created for.
abbrev pub needs_runner : Features → Option Subcommand → Bool
needs_runner F (some key) = false
needs_runner F (some try_runtime) = F.try_runtime_enabled
needs_runner F _ = true

-- A work that is handed on after a step that may fail is done with the runtime it was made for.
after_step :
    {E : Type 0} (step : Result LoadError E) (made : Work) {w : Work} {r own : Runtime}
    → runtime_in made ≡ some own
    → (step >> ok made) ≡ ok w
    → runtime_in w ≡ some r
    → r ≡ own
after_step (ok a) made h ran uses = cc
after_step (err e) made h ran uses = cc

-- A result that is `ok` after a bind comes from one that is `ok`.
ok_of_bind :
    {A B : Type 0} (m : Result LoadError A) (f : A → Result LoadError B) {b : B}
    → (m >>= f) ≡ ok b
    → (a : A) × (m ≡ ok a) × (f a ≡ ok b)
ok_of_bind (ok a) f h = (a, refl, h)
ok_of_bind (err e) f h = cc

module _ (F : Features) (O : Outside) where
  -- What every work that uses a runtime shows of the specification and the runtime.
  abbrev Chosen : Runtime → Type 0
  Chosen r = (spec : DynSpec) × (O.create_runner ≡ ok spec) × (r ≡ runtime_of spec)

  async_runtime :
      (c : Subcommand) {w : Work} {r : Runtime}
      → construct_async_run F O (with_client c) ≡ ok w
      → runtime_in w ≡ some r
      → Chosen r
  unfolding construct_async_run
  async_runtime c ran uses =
      let (spec, runner, rest) = ok_of_bind O.create_runner _ ran in
      (
        spec,
        runner,
        after_step (new_partial_for F O (runtime_of spec)) (with_client c (runtime_of spec)) refl
            rest uses,
      )

  benchmark_runtime :
      (c : BenchmarkCmd) (spec : DynSpec) {w : Work} {r : Runtime}
      → run_benchmark F O c spec ≡ ok w
      → runtime_in w ≡ some r
      → r ≡ runtime_of spec
  unfolding run_benchmark
  benchmark_runtime pallet spec ran uses = ground arith
  benchmark_runtime block spec ran uses =
      after_step (new_partial_for F O (runtime_of spec)) (benchmark_block (runtime_of spec)) refl
        ran uses
  benchmark_runtime storage spec ran uses = ground arith
  benchmark_runtime machine spec ran uses = ground arith
  benchmark_runtime other_benchmark spec ran uses = ground arith

  node_runtime :
      (spec : DynSpec) {w : Work} {r : Runtime}
      → start_node F O spec ≡ ok w
      → runtime_in w ≡ some r
      → r ≡ runtime_of spec
  unfolding start_node
  node_runtime spec ran uses = ground arith

  run-Chosen :
      (c : Option Subcommand) {w : Work} {r : Runtime}
      → run F O c ≡ ok w
      → runtime_in w ≡ some r
      → Chosen r
  unfolding run
  run-Chosen (some key) ran uses = ground arith
  run-Chosen (some build_spec) ran uses = ground arith
  run-Chosen (some check_block) ran uses = async_runtime check_block ran uses
  run-Chosen (some export_blocks) ran uses = async_runtime export_blocks ran uses
  run-Chosen (some export_state) ran uses = async_runtime export_state ran uses
  run-Chosen (some import_blocks) ran uses = async_runtime import_blocks ran uses
  run-Chosen (some revert) ran uses = async_runtime revert ran uses
  run-Chosen (some purge_chain) ran uses = ground arith
  run-Chosen (some (export_genesis_state chain)) ran uses =
      let (spec, _, rest) = ok_of_bind O.create_runner _ ran in
      let (loaded, _, written) = ok_of_bind (load_spec O.wasm O.json (get_or chain "")) _ rest in
      ground arith
  run-Chosen (some (export_genesis_wasm chain)) ran uses =
      let (spec, _, rest) = ok_of_bind O.create_runner _ ran in
      let (loaded, _, written) = ok_of_bind (load_spec O.wasm O.json (get_or chain "")) _ rest in
      ground arith
  run-Chosen (some (benchmark cmd)) ran uses =
      let (spec, runner, rest) = ok_of_bind O.create_runner _ ran in
      (spec, runner, benchmark_runtime cmd spec rest uses)
  run-Chosen (some try_runtime) ran uses = ground arith
  run-Chosen none ran uses =
      let (spec, runner, rest) = ok_of_bind O.create_runner _ ran in
      (spec, runner, node_runtime spec rest uses)

  runtime_of_iff : (spec : DynSpec) → (runtime_of spec ≡ shell_runtime) ↔ (is_shell spec ≡ true)
  unfolding runtime_of
  runtime_of_iff spec = ground arith

  -- Whatever subcommand is run, without one too: a work that uses one of the two runtimes uses the
  -- shell's exactly if the specification of the runner is a shell by its name.
  pub run_runtime :
      (c : Option Subcommand) {w : Work} {r : Runtime}
      → run F O c ≡ ok w
      → runtime_in w ≡ some r
      → (spec : DynSpec) × (O.create_runner ≡ ok spec)
        × ((r ≡ shell_runtime) ↔ (is_shell spec ≡ true))
  unfolding run
  run_runtime c ran uses =
      let (spec, runner, own) = run-Chosen c ran uses in
      (spec, runner, rw own (runtime_of_iff spec))

  -- Where no runner comes up, a subcommand that needs one hands nothing on and ends in the runner's
  -- error.
  pub run_without_runner :
      (c : Option Subcommand) {e : LoadError}
      → needs_runner F c ≡ true
      → O.create_runner ≡ err e
      → run F O c ≡ err e
  unfolding run construct_async_run
  run_without_runner (some key) n h = cc
  run_without_runner (some build_spec) n h = rw h refl
  run_without_runner (some check_block) n h = rw h refl
  run_without_runner (some export_blocks) n h = rw h refl
  run_without_runner (some export_state) n h = rw h refl
  run_without_runner (some import_blocks) n h = rw h refl
  run_without_runner (some revert) n h = rw h refl
  run_without_runner (some purge_chain) n h = rw h refl
  run_without_runner (some (export_genesis_state chain)) n h = rw h refl
  run_without_runner (some (export_genesis_wasm chain)) n h = rw h refl
  run_without_runner (some (benchmark cmd)) n h = rw h refl
  run_without_runner (some try_runtime) n h = rw (n, h) refl
  run_without_runner none n h = rw h refl

  start_node_iff :
      (spec : DynSpec) (r : Runtime) (id : ℕ)
      → (start_node F O spec ≡ ok (run_node r id)) ↔ (
          (extension : Extensions) × (O.get_extension spec ≡ some extension)
          × (O.generate_genesis_block spec (native_runtime_version spec).state_version ≡ ok tt)
          × (O.create_relay_configuration ≡ ok tt)
          × (r ≡ runtime_of spec)
          × (id ≡ extension.para_id))
  unfolding start_node
  start_node_iff spec r id = ground arith
