-- ===== src/Tests/Command.antt =====
-- The command line with a runner that comes up with a generated specification.
use parachain.Base.{◌≡◌, refl, ◌↔◌, true, false, String, none, some, [], Result, ok, err}
use parachain.Spec.Relay.{kusama}
use parachain.Spec.Genesis.{integritee, shell_chain_spec}
use parachain.Spec.Load.{DynSpec, shell, is_shell, LoadError, message, Json}
use parachain.Service.Node.{Settings, Outcomes, new_partial}
use parachain.Command.RelayCli.{Base}
use parachain.Command.Run.{
  check_block, with_client, shell_runtime, Features, Outside, runtime_of, construct_async_run,
  new_partial_for, run,
}
use parachain.Command.Run.Laws.{run_runtime}

abbrev spec : DynSpec
spec = shell (shell_chain_spec (some []) 2267 integritee kusama)

abbrev features : Features
features = record { runtime_benchmarks = false; try_runtime_enabled = false }

abbrev no_files : Json
no_files = record {
  shell_bytes = λ file. err (message "no file");
  integritee_bytes = λ file. err (message "no file");
  shell_file = λ path. err (message "no file");
  integritee_file = λ path. err (message "no file");
}

abbrev quiet : Settings
quiet = record { telemetry_endpoints = none; is_authority = false; hwbench = false }

abbrev all_well : Outcomes LoadError
all_well = record {
  telemetry_worker = ok tt;
  full_parts = ok tt;
  import_queue = ok tt;
  relay_chain_interface = ok false;
  network = ok tt;
  tasks = ok tt;
  overseer = ok tt;
  consensus = ok tt;
  collator = ok tt;
  full_node = ok tt;
  check_hardware = true;
  from_text = message;
  boxed = λ e. message "relay chain";
}

abbrev outside : Result LoadError DynSpec → Outside
outside runner = record {
  create_runner = runner;
  wasm = some [];
  json = no_files;
  settings = quiet;
  outcomes = λ r. all_well;
  create_relay_configuration = ok tt;
  task_manager = ok tt;
  get_extension = λ s. some (record { relay_chain = "kusama"; para_id = 2267 });
  generate_genesis_block = λ s v. ok tt;
}

checks_block :
    run features (outside (ok spec)) (some check_block) ≡ ok (with_client check_block shell_runtime)
unfolding run construct_async_run new_partial_for new_partial runtime_of is_shell shell_chain_spec
checks_block = refl

run_runtime_example :
    (s : DynSpec) × (Outside.create_runner (outside (ok spec)) ≡ ok s)
    × ((shell_runtime ≡ shell_runtime) ↔ (is_shell s ≡ true))
run_runtime_example = run_runtime features (outside (ok spec)) (some check_block) checks_block refl

-- Relay chain arguments that name neither a base path nor a chain.
abbrev no_arguments : Base String
no_arguments = record { base_path = ok none; chain_id = λ is_dev. ok "" }
