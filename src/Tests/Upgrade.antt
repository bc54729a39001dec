-- ===== src/Tests/Upgrade.antt =====
-- A relay chain node with its own base path and chain, and an upgrade between generated
-- specifications.
use parachain.Base.{ℕ, ◌≤◌, ◌<◌, ◌≡◌, refl, true, false, String, none, some, [], ◌∷◌, ok, arith}
use parachain.Spec.Relay.{kusama}
use parachain.Spec.Genesis.{integritee, shell_chain_spec, integritee_chain_spec}
use parachain.Spec.Load.{DynSpec, shell, is_shell, is_shell_name}
use parachain.Spec.Load as Load
use parachain.Command.Run.{runtime_of, shell_runtime, integritee_runtime, native_runtime_version}
use parachain.Command.RelayConfig.{Answers, Configuration, relay_configuration}
use parachain.Command.RelayConfig.Laws.{relay_configuration_own}
use parachain.Runtime.Deposits.{multisig_parameters, proxy_parameters}
use parachain.Runtime.Periods.{minimum_period}
use parachain.Runtime.BlockWeights.{reserved_xcmp_weight, reserved_dmp_weight}
use parachain.Runtime.Upgrade.{
  balances_parameters, shell_balances_parameters, min_vested_transfer, shell_min_vested_transfer,
  shell_minimum_period, signed_extra, shell_signed_extra, shell_reserved_xcmp_weight,
  shell_reserved_dmp_weight, system_parameters, shell_system_parameters,
}
use parachain.Runtime.Upgrade.Laws.{CanReplace, upgrade_keeps}

abbrev answers : Answers
answers = record {
  Error = String;
  SharedParams = Unit {0};
  ImportParams = Unit {0};
  NetworkParams = Unit {0};
  KeystoreParams = Unit {0};
  SocketAddr = Unit {0};
  DynSpec = Unit {0};
  PrometheusConfig = Unit {0};
  Role = Unit {0};
  TransactionPoolOptions = Unit {0};
  RpcMethods = Unit {0};
  TelemetryEndpoints = Unit {0};
}

abbrev arguments : Configuration answers
arguments = record {
  base = record { base_path = ok (some ("relay" ∷ [])); chain_id = λ is_dev. ok "rococo" };
  shared_params = tt;
  import_params = none;
  network_params = none;
  keystore_params = none;
  rpc_http = λ port. ok none;
  rpc_ipc = ok none;
  rpc_ws = λ port. ok none;
  prometheus_config = λ port s. ok none;
  role = λ is_dev. ok tt;
  transaction_pool = λ is_dev. ok tt;
  trie_cache_maximum_size = ok (some 64);
  rpc_methods = ok tt;
  rpc_ws_max_connections = ok none;
  rpc_cors = λ is_dev. ok none;
  default_heap_pages = ok none;
  force_authoring = ok false;
  disable_grandpa = ok false;
  max_runtime_instances = ok (some 8);
  announce_block = ok true;
  telemetry_endpoints = λ s. ok none;
  node_name = ok "relay";
}

relay_configuration_own_example :
    relay_configuration answers arguments
      (some (record { relay_chain = "kusama"; para_id = 2267 }))
      (some ("para" ∷ []))
    ≡ arguments
relay_configuration_own_example =
    relay_configuration_own answers arguments
      (some (record { relay_chain = "kusama"; para_id = 2267 })) (some ("para" ∷ [])) refl
      (λ is_dev. ("rococo", refl, refl))

abbrev before : DynSpec
before = shell (shell_chain_spec (some []) 2267 integritee kusama)

abbrev after : DynSpec
after = Load.integritee (integritee_chain_spec (some []) 2267 integritee kusama)

before_shell : runtime_of before ≡ shell_runtime
unfolding runtime_of is_shell is_shell_name shell_chain_spec
before_shell = refl

after_full : runtime_of after ≡ integritee_runtime
unfolding runtime_of is_shell is_shell_name integritee_chain_spec
after_full = refl

abbrev part_of : ℕ → ℕ → ℕ
part_of parts value = value

upgrade_keeps_example :
    CanReplace (native_runtime_version before) (native_runtime_version after)
    × (¬ CanReplace (native_runtime_version after) (native_runtime_version before))
    × (system_parameters 1_000 200 part_of ≡ shell_system_parameters 1_000 200 part_of)
    × (balances_parameters ≡ shell_balances_parameters)
    × (reserved_xcmp_weight 1_000 200 ≡ shell_reserved_xcmp_weight 1_000 200)
    × (reserved_dmp_weight 1_000 200 ≡ shell_reserved_dmp_weight 1_000 200)
    × (minimum_period ≡ shell_minimum_period)
    × (signed_extra ≡ shell_signed_extra)
    × (min_vested_transfer < shell_min_vested_transfer)
upgrade_keeps_example = upgrade_keeps before after before_shell after_full 1_000 200 part_of

few :
    (3 ≤ multisig_parameters.max_signatories)
    × (4 ≤ proxy_parameters.max_proxies)
    × (1 ≤ proxy_parameters.max_pending)
unfolding multisig_parameters proxy_parameters
few = omega arith
