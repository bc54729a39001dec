-- ===== src/Lib.antt =====
-- The Integritee parachain: a collator node and its two runtimes. A chain starts with the shell
-- runtime and is upgraded to the full one. The node loads a specification by an id, picks the
-- runtime by its name, starts the services, and verifies blocks by the relay chain's verifier until
-- their parent's runtime has Aura. `WaitForAuraConsensus` does the same for producing blocks; at
-- this commit nothing constructs it. The runtimes configure library pallets: filters, origins,
-- periods, fees, block weights, indices and XCM.
--
-- Which file models which part, by paths from the repository's root:
-- - Xcm/Location: the part of the xcm crate's locations and assets that the configuration names.
-- - Xcm/Barrier: `DenyThenTry` and `DenyReserveTransferToRelayChain` of
--   polkadot-parachains/common/src/xcm_config.rs. What a barrier borrows mutably, the message, the
--   weight credit and the log, is passed through. The second barrier is a parameter.
-- - Xcm/Currency, Xcm/Reserve: `CurrencyIdConvert` and `AbsoluteAndRelativeReserve` of
--   polkadot-parachains/integritee-runtime/src/xcm_config.rs; Xcm/Shell: those of
--   polkadot-parachains/shell-runtime/src/xcm_config.rs; Xcm/Weigher, Xcm/Accounts: the weigher of
--   both, and the locations of the chain and its accounts; Xcm/Origins, Xcm/Executor,
--   Xcm/RuntimeBarrier, Xcm/Pallet: of both runtimes' xcm_config.rs, who an XCM origin is, whose
--   assets are accepted, the whole barrier, and the local origins and filters of `pallet_xcm`;
--   Xcm/Tokens: the configuration of xtokens in the full runtime. The chain's id, the provider of
--   relative reserves and the converters, filters and barriers of the libraries are parameters; the
--   places that the converters tell apart stand in Xcm/Origins/Places.
-- - Service/Lazy, Service/Consensus, Service/Verifier: `BuildOnAccess`, `WaitForAuraConsensus` and
--   `Verifier` of polkadot-parachains/src/service.rs. The cells that the clones of a handle share
--   are a store, and the two engines and the client a record of functions, `Host`.
--   `Service/Consensus.run` is a sequence of calls, as the locks order them. Service/Queue:
--   `aura_build_import_queue` of the same file, as the verifier that the import queue starts with.
-- - Service/Node: `new_partial` and `start_node_impl` of the same file, as the calls they make and
--   how they end, for any answers of the calls, `Outcomes`. Service/Aura:
--   `start_generic_aura_node`, which runs them with its own closures, and what these give a
--   collator and a verifier, `Clock`.
-- - Service/Rpc: `create_full` of polkadot-parachains/src/rpc.rs, over the services and the merging
--   of their methods.
-- - Spec/Relay, Spec/Genesis: polkadot-parachains/src/chain_spec.rs. Spec/Load: `load_spec` and
--   `is_shell` of polkadot-parachains/src/command.rs, its table of ids in Spec/Load/Table. The
--   reader of JSON files is a parameter, `Json`.
-- - Command/RelayCli, Command/RelayConfig: `RelayChainCli` of polkadot-parachains/src/cli.rs and
--   command.rs, and its configuration from the answers of `polkadot_cli`; Command/Run: `run` of
--   command.rs, as the choice of the work and of its runtime, for any answers of the runner and the
--   libraries, `Outside`; Command/Startup: the hardware benchmarks, log lines and texts of the same
--   file.
-- - Runtime/Pallets, Proxy, Periods, Governance, Fees, Deposits, BlockWeights:
--   polkadot-parachains/integritee-runtime/src/lib.rs and helpers.rs, with the constants of
--   polkadot-parachains/common/src; Runtime/Shell: the call filter of
--   polkadot-parachains/shell-runtime/src/lib.rs; Runtime/Inherents: `CheckInherents` of both;
--   Runtime/Upgrade: what both configure alike; Runtime/Parameters: the limits of the full
--   runtime's pallets; Runtime/Apis: `impl_runtime_apis!` of both, over the executive and the
--   pallets, and Runtime/Apis/Features what two features add to the full one. The checks of the
--   collective pallet, `Checks`, the imbalances of the currency, `Imbalances`, and the operations
--   of `Perbill` are parameters, whose documented behaviour is a hypothesis where a theorem needs
--   it.
-- - Weights/<Pallet>: the weight functions of the files in
--   polkadot-parachains/integritee-runtime/src/weights. `frame_support::weights` is a parameter,
--   `Weights` of Weights/Interface, with what is documented of it in Weights/Interface/Laws; its
--   instance `counting` keeps the numbers of reads and writes. Weights/<Pallet>/Laws and
--   Weights/<Pallet>/Storage hold what the comments of a file document: ranges of components and
--   proof sizes, and the storage accesses one by one, `Access` of Weights/Storage.
--   Weights/Functions and Weights/Accesses join all pallets.
-- Base holds the shared helpers, and Tests small runs and an instance of each theorem.
--
-- Bounds: the loop of `get_mut` runs on fuel, `turns`, which is two: one turn builds and stores,
-- the next returns what is stored. A panic is a value. A `u128` wraps as written in Runtime/Fees,
-- and weights saturate at the greatest `u64`; all other numbers of the configuration are constants
-- or stay far below their width.
--
-- Not modelled: library pallets and their type-level configuration, the rest of the XCM executor's
-- wiring, which names library types only, the handles that the services pass on, tests, scripts and
-- JSON specifications.
pub mod Base
pub mod Xcm
pub mod Service
pub mod Runtime
pub mod Spec
pub mod Command
pub mod Weights
pub mod Tests
