-- ===== src/Command/RelayCli.antt =====
-- `RelayChainCli` of polkadot-parachains/src/cli.rs and its configuration in
-- polkadot-parachains/src/command.rs. The arguments of the embedded relay chain node are parsed by
-- `polkadot_cli`, outside the repository: `Base` holds what its methods answer.
pub mod Laws
use parachain.Base.{
  ℕ, Bool, true, false, String, Option, none, some, List, [], ◌∷◌, ◌++◌, Result, ok, err, ◌>>=◌,
  str_eq, if◌then◌else◌,
}
use mathlib.Core.Option
use mathlib.Core.Option.{or_else, get_or}

-- A path, by its components.
abbrev pub FilePath : Type 0
FilePath = List String

-- The base path of `--base-path`, and the chain of `--chain` or `--dev`, which is empty if neither
-- is given.
pub record Base (Error : Type 0) : Type 0 where
  pub base_path : Result Error (Option FilePath)
  pub chain_id : Bool → Result Error String

pub record Extensions : Type 0 where
  pub relay_chain : String
  pub para_id : ℕ

pub record RelayChainCli (Error : Type 0) : Type 0 where
  pub base : Base Error
  pub chain_id : Option String
  pub base_path : Option FilePath

module _ {Error : Type 0} where
  -- `new`: the extension of the parachain's spec, and the parachain's base path.
  unfoldable pub new : Option Extensions → Option FilePath → Base Error → RelayChainCli Error
  new extension para_base_path base = record {
    base = base;
    chain_id = Option.map (λ (e : Extensions). e.relay_chain) extension;
    base_path = Option.map (λ x. x ++ ("polkadot" ∷ [])) para_base_path;
  }

  unfoldable pub base_path : RelayChainCli Error → Result Error (Option FilePath)
  base_path cli = cli.base.base_path >>= λ given. ok (or_else given cli.base_path)

  unfoldable pub chain_id : RelayChainCli Error → Bool → Result Error String
  chain_id cli is_dev = cli.base.chain_id is_dev >>= λ given.
      ok (if str_eq given "" then get_or cli.chain_id "" else given)

-- `DefaultConfigurationValues`
abbrev pub p2p_listen_port : ℕ
p2p_listen_port = 30334

abbrev pub rpc_ws_listen_port : ℕ
rpc_ws_listen_port = 9945

abbrev pub rpc_http_listen_port : ℕ
rpc_http_listen_port = 9934

abbrev pub prometheus_listen_port : ℕ
prometheus_listen_port = 9616
