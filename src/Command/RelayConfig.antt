-- ===== src/Command/RelayConfig.antt =====
-- `CliConfiguration` of `RelayChainCli` in polkadot-parachains/src/command.rs: what the embedded relay
-- chain node is configured with. The types of the answers are of `sc_cli` and `sc_service`, outside the
-- repository: `Answers` names them, and `Configuration` holds what the methods answer.
pub mod Laws
use parachain.Base.{ℕ, Bool, String, Option, List, Result}
use parachain.Command.RelayCli.{FilePath, Base, Extensions, new, base_path, chain_id}

pub record Answers : Type 1 where
  pub Error : Type 0
  pub SharedParams : Type 0
  pub ImportParams : Type 0
  pub NetworkParams : Type 0
  pub KeystoreParams : Type 0
  pub SocketAddr : Type 0
  pub DynSpec : Type 0
  pub PrometheusConfig : Type 0
  pub Role : Type 0
  pub TransactionPoolOptions : Type 0
  pub RpcMethods : Type 0
  pub TelemetryEndpoints : Type 0

module _ (A : Answers) where
  open A use {
    Error, SharedParams, ImportParams, NetworkParams, KeystoreParams, SocketAddr, DynSpec,
    PrometheusConfig, Role, TransactionPoolOptions, RpcMethods, TelemetryEndpoints,
  }

  -- `base_path` and `chain_id` are in a record of their own.
  pub record Configuration : Type 0 where
    pub base : Base Error
    pub shared_params : SharedParams
    pub import_params : Option ImportParams
    pub network_params : Option NetworkParams
    pub keystore_params : Option KeystoreParams
    pub rpc_http : ℕ → Result Error (Option SocketAddr)
    pub rpc_ipc : Result Error (Option String)
    pub rpc_ws : ℕ → Result Error (Option SocketAddr)
    pub prometheus_config : ℕ → DynSpec → Result Error (Option PrometheusConfig)
    pub role : Bool → Result Error Role
    pub transaction_pool : Bool → Result Error TransactionPoolOptions
    pub trie_cache_maximum_size : Result Error (Option ℕ)
    pub rpc_methods : Result Error RpcMethods
    pub rpc_ws_max_connections : Result Error (Option ℕ)
    pub rpc_cors : Bool → Result Error (Option (List String))
    pub default_heap_pages : Result Error (Option ℕ)
    pub force_authoring : Result Error Bool
    pub disable_grandpa : Result Error Bool
    pub max_runtime_instances : Result Error (Option ℕ)
    pub announce_block : Result Error Bool
    pub telemetry_endpoints : DynSpec → Result Error (Option TelemetryEndpoints)
    pub node_name : Result Error String

  -- That of the relay chain node, from that of its own arguments: all but two answers are delegated.
  unfoldable pub relay_configuration :
      Configuration → Option Extensions → Option FilePath → Configuration
  relay_configuration b extension para_base_path = record {
    base = record {
      base_path = base_path (new extension para_base_path b.base);
      chain_id = λ is_dev. chain_id (new extension para_base_path b.base) is_dev;
    };
    shared_params = b.shared_params;
    import_params = b.import_params;
    network_params = b.network_params;
    keystore_params = b.keystore_params;
    rpc_http = λ default_listen_port. b.rpc_http default_listen_port;
    rpc_ipc = b.rpc_ipc;
    rpc_ws = λ default_listen_port. b.rpc_ws default_listen_port;
    prometheus_config =
        λ default_listen_port chain_spec. b.prometheus_config default_listen_port chain_spec;
    role = λ is_dev. b.role is_dev;
    transaction_pool = λ is_dev. b.transaction_pool is_dev;
    trie_cache_maximum_size = b.trie_cache_maximum_size;
    rpc_methods = b.rpc_methods;
    rpc_ws_max_connections = b.rpc_ws_max_connections;
    rpc_cors = λ is_dev. b.rpc_cors is_dev;
    default_heap_pages = b.default_heap_pages;
    force_authoring = b.force_authoring;
    disable_grandpa = b.disable_grandpa;
    max_runtime_instances = b.max_runtime_instances;
    announce_block = b.announce_block;
    telemetry_endpoints = λ chain_spec. b.telemetry_endpoints chain_spec;
    node_name = b.node_name;
  }
