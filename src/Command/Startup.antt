-- ===== src/Command/Startup.antt =====
-- What `run` of polkadot-parachains/src/command.rs does around the start of a node: the gathering of
-- the hardware benchmarks, the lines that it logs and the warning, and the texts that the two command
-- lines present (`SubstrateCli`). Benchmarking, the texts of the build and of the operating system are
-- outside the repository, hence parameters.
pub mod Laws
use parachain.Base.{
  ℕ, Bool, true, false, not, ◌&&◌, String, ◌<>◌, List, [], ◌∷◌, ◌++◌, Option, none, some,
  if◌then◌else◌,
}

-- What is done on the machine.
pub data Effect : Type 0 where
  create_dir_all gather_hwbench : String → Effect

-- `bool::then_some`, of which the argument is evaluated first, and `Option::flatten`.
abbrev pub then_some : {A : Type 0} → Bool → A → Option A
then_some true a = some a
then_some false a = none

abbrev pub flatten : {A : Type 0} → Option (Option A) → Option A
flatten none = none
flatten (some a) = a

module _ {HwBench : Type 0} (hwbench_at : String → HwBench) where
  -- The closure that is mapped over the path of the database.
  abbrev pub gathered : Option String → Option HwBench × List Effect
  gathered none = (none, [])
  gathered (some database_path) = (
    some (hwbench_at database_path),
    create_dir_all database_path ∷ gather_hwbench database_path ∷ [],
  )

  unfoldable pub collect_hwbench : Bool → Option String → Option HwBench × List Effect
  collect_hwbench no_hardware_benchmarks database_path =
      let (hwbench, effects) = gathered database_path in
      (flatten (then_some (not no_hardware_benchmarks) hwbench), effects)

abbrev pub is_empty : {A : Type 0} → List A → Bool
is_empty [] = true
is_empty (a ∷ l) = false

abbrev pub log_lines : String → String → String → Bool → List String
log_lines id parachain_account genesis_state is_authority =
    ("Parachain id: " <> id)
    ∷ ("Parachain Account: " <> parachain_account)
    ∷ ("Parachain genesis state: " <> genesis_state)
    ∷ ("Is collating: " <> (if is_authority then "yes" else "no"))
    ∷ []

abbrev pub relay_arguments_warning : String
relay_arguments_warning =
    "Detected relay chain node arguments together with --relay-chain-rpc-url. This command starts a minimal Polkadot node that only uses a network-related subset of all relay chain CLI options."

-- The lines and warnings, after which the node is started.
unfoldable pub log_start : String → String → String → Bool → List String → List String → List String
log_start id parachain_account genesis_state is_authority relay_chain_rpc_urls relaychain_args =
    log_lines id parachain_account genesis_state is_authority
    ++ (if not (is_empty relay_chain_rpc_urls) && not (is_empty relaychain_args)
        then relay_arguments_warning ∷ []
        else [])

-- `SubstrateCli`, as far as it is text; version and author are those of the build.
pub record CliTexts : Type 0 where
  pub impl_name : String
  pub impl_version : String
  pub description : String
  pub author : String
  pub support_url : String
  pub copyright_start_year : ℕ

module _ (build_version authors executable_name : String) where
  abbrev pub cli_texts : CliTexts
  cli_texts = record {
    impl_name = "Integritee Collator";
    impl_version = build_version;
    description =
        "Integritee Collator\n\nThe command-line arguments provided first will be passed to the parachain node, while the arguments provided after -- will be passed to the relaychain node.\n\n"
        <> executable_name <> " [parachain-args] -- [relaychain-args]";
    author = authors;
    support_url = "https://github.com/integritee-network/parachain/issues/new";
    copyright_start_year = 2019;
  }

  abbrev pub relay_chain_cli_texts : CliTexts
  relay_chain_cli_texts = record {
    impl_name = "Integritee Collator";
    impl_version = build_version;
    description =
        "Integritee Collator\n\nThe command-line arguments provided first will be passed to the parachain node, while the arguments provided after -- will be passed to the relaychain node.\n\n"
        <> executable_name <> " [parachain-args] -- [relaychain-args]";
    author = authors;
    support_url = "https://github.com/integritee-network/parachain/issues/new";
    copyright_start_year = 2019;
  }
