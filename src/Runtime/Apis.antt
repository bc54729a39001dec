-- ===== src/Runtime/Apis.antt =====
-- `impl_runtime_apis!` of polkadot-parachains/integritee-runtime/src/lib.rs and of
-- polkadot-parachains/shell-runtime/src/lib.rs: what a runtime answers when the node calls it, and the
-- state that it leaves. The executive and the pallets are outside the repository: `Outside` holds their
-- functions. Blocks, headers, extrinsics and other values that are only handed on are their encoding.
-- A trap of the runtime is an error with its text.
pub mod Features
pub mod Laws
use parachain.Base.{ℕ, Bool, String, List, [], ◌∷◌, Option, Result, ok, err, ◌>>=◌}
use parachain.Xcm.Barrier.{Weight}
use parachain.Runtime.Periods.{minimum_period}
use parachain.Runtime.Upgrade.{shell_minimum_period}
use parachain.Command.Run.{RuntimeVersion, shell_version, integritee_version}

abbrev pub Encoded : Type 0
Encoded = List ℕ

pub record Outside (State : Type 0) : Type 0 where
  -- `pallet_aura`, over the configured `MinimumPeriod`.
  pub aura_slot_duration : ℕ → ℕ
  pub aura_authorities : State → List Encoded
  -- `frame_executive`
  pub execute_block : Encoded → State → Result String State
  pub initialize_block : Encoded → State → Result String State
  pub apply_extrinsic : Encoded → State → Result String (Encoded × State)
  pub finalize_block : State → Result String (Encoded × State)
  pub validate_transaction : ℕ → Encoded → Encoded → State → Result String (Encoded × State)
  pub executive_offchain_worker : Encoded → State → Result String State
  -- The metadata, the inherents and the session keys that the macros generate.
  pub runtime_metadata : Encoded
  pub runtime_metadata_at_version : ℕ → Option Encoded
  pub runtime_metadata_versions : List ℕ
  pub create_extrinsics : Encoded → State → List Encoded
  pub check_extrinsics : Encoded → Encoded → State → Encoded
  pub generate : Option (List ℕ) → State → List ℕ × State
  pub decode_into_raw_public_keys : List ℕ → Option (List (List ℕ × ℕ))
  -- The system, transaction payment and parachain system pallets.
  pub system_account_nonce : Encoded → State → ℕ
  pub payment_info : Encoded → ℕ → State → Encoded
  pub payment_fee_details : Encoded → ℕ → State → Encoded
  pub payment_call_info : Encoded → ℕ → State → Encoded
  pub payment_call_fee_details : Encoded → ℕ → State → Encoded
  pub weight_to_fee : Weight → State → ℕ
  pub length_to_fee : ℕ → State → ℕ
  pub parachain_collation_info : Encoded → State → Encoded

-- The functions of the interface.
pub data ApiCall : Type 0 where
  slot_duration authorities : ApiCall
  version : ApiCall
  core_execute_block core_initialize_block : Encoded → ApiCall
  metadata metadata_versions : ApiCall
  metadata_at_version : ℕ → ApiCall
  builder_apply_extrinsic : Encoded → ApiCall
  builder_finalize_block : ApiCall
  inherent_extrinsics : Encoded → ApiCall
  builder_check_inherents : Encoded → Encoded → ApiCall
  pool_validate_transaction : ℕ → Encoded → Encoded → ApiCall
  offchain_worker : Encoded → ApiCall
  generate_session_keys : Option (List ℕ) → ApiCall
  decode_session_keys : List ℕ → ApiCall
  account_nonce : Encoded → ApiCall
  query_info query_fee_details : Encoded → ℕ → ApiCall
  query_weight_to_fee : Weight → ApiCall
  query_length_to_fee : ℕ → ApiCall
  query_call_info query_call_fee_details : Encoded → ℕ → ApiCall
  call_query_weight_to_fee : Weight → ApiCall
  call_query_length_to_fee : ℕ → ApiCall
  collect_collation_info : Encoded → ApiCall

pub data Answer : Type 0 where
  nothing : Answer
  number : ℕ → Answer
  of_version : RuntimeVersion → Answer
  encoded : Encoded → Answer
  maybe_encoded : Option Encoded → Answer
  encodings : List Encoded → Answer
  numbers : List ℕ → Answer
  raw_keys : Option (List (List ℕ × ℕ)) → Answer

-- A function that reads only, one that writes only, and one that does both.
abbrev pub reads : {State : Type 0} → Answer → State → Result String (Answer × State)
reads answer s = ok (answer, s)

abbrev pub writes : {State : Type 0} → Result String State → Result String (Answer × State)
writes r = r >>= λ s. ok (nothing, s)

abbrev pub answers :
    {State : Type 0} → Result String (Encoded × State) → Result String (Answer × State)
answers r = r >>= λ (a, s). ok (encoded a, s)

module _ {State : Type 0} (O : Outside State) where
  unfoldable pub call : ApiCall → State → Result String (Answer × State)
  call slot_duration s = reads (number (O.aura_slot_duration minimum_period)) s
  call authorities s = reads (encodings (O.aura_authorities s)) s
  call version s = reads (of_version integritee_version) s
  call (core_execute_block block) s = writes (O.execute_block block s)
  call (core_initialize_block header) s = writes (O.initialize_block header s)
  call metadata s = reads (encoded O.runtime_metadata) s
  call (metadata_at_version v) s = reads (maybe_encoded (O.runtime_metadata_at_version v)) s
  call metadata_versions s = reads (numbers O.runtime_metadata_versions) s
  call (builder_apply_extrinsic extrinsic) s = answers (O.apply_extrinsic extrinsic s)
  call builder_finalize_block s = answers (O.finalize_block s)
  call (inherent_extrinsics data') s = reads (encodings (O.create_extrinsics data' s)) s
  call (builder_check_inherents block data') s =
      reads (encoded (O.check_extrinsics data' block s)) s
  call (pool_validate_transaction source tx block_hash) s =
      answers (O.validate_transaction source tx block_hash s)
  call (offchain_worker header) s = writes (O.executive_offchain_worker header s)
  call (generate_session_keys seed) s = let (keys, s') = O.generate seed s in ok (encoded keys, s')
  call (decode_session_keys bytes) s = reads (raw_keys (O.decode_into_raw_public_keys bytes)) s
  call (account_nonce account) s = reads (number (O.system_account_nonce account s)) s
  call (query_info uxt len) s = reads (encoded (O.payment_info uxt len s)) s
  call (query_fee_details uxt len) s = reads (encoded (O.payment_fee_details uxt len s)) s
  call (query_weight_to_fee weight) s = reads (number (O.weight_to_fee weight s)) s
  call (query_length_to_fee len) s = reads (number (O.length_to_fee len s)) s
  call (query_call_info c len) s = reads (encoded (O.payment_call_info c len s)) s
  call (query_call_fee_details c len) s = reads (encoded (O.payment_call_fee_details c len s)) s
  call (call_query_weight_to_fee weight) s = reads (number (O.weight_to_fee weight s)) s
  call (call_query_length_to_fee len) s = reads (number (O.length_to_fee len s)) s
  call (collect_collation_info header) s = reads (encoded (O.parachain_collation_info header s)) s

  unfoldable pub shell_call : ApiCall → State → Result String (Answer × State)
  shell_call slot_duration s = reads (number (O.aura_slot_duration shell_minimum_period)) s
  shell_call authorities s = reads (encodings (O.aura_authorities s)) s
  shell_call version s = reads (of_version shell_version) s
  shell_call (core_execute_block block) s = writes (O.execute_block block s)
  shell_call (core_initialize_block header) s = writes (O.initialize_block header s)
  shell_call metadata s = reads (encoded O.runtime_metadata) s
  shell_call (metadata_at_version v) s = reads (maybe_encoded (O.runtime_metadata_at_version v)) s
  shell_call metadata_versions s = reads (numbers O.runtime_metadata_versions) s
  shell_call (builder_apply_extrinsic extrinsic) s = answers (O.apply_extrinsic extrinsic s)
  shell_call builder_finalize_block s = answers (O.finalize_block s)
  shell_call (inherent_extrinsics data') s = reads (encodings (O.create_extrinsics data' s)) s
  shell_call (builder_check_inherents block data') s =
      reads (encoded (O.check_extrinsics data' block s)) s
  shell_call (pool_validate_transaction source tx block_hash) s =
      answers (O.validate_transaction source tx block_hash s)
  shell_call (offchain_worker header) s = writes (O.executive_offchain_worker header s)
  shell_call (generate_session_keys seed) s =
      let (keys, s') = O.generate seed s in ok (encoded keys, s')
  shell_call (decode_session_keys bytes) s =
      reads (raw_keys (O.decode_into_raw_public_keys bytes)) s
  shell_call (account_nonce account) s = reads (number (O.system_account_nonce account s)) s
  shell_call (query_info uxt len) s = reads (encoded (O.payment_info uxt len s)) s
  shell_call (query_fee_details uxt len) s = reads (encoded (O.payment_fee_details uxt len s)) s
  shell_call (query_weight_to_fee weight) s = reads (number (O.weight_to_fee weight s)) s
  shell_call (query_length_to_fee len) s = reads (number (O.length_to_fee len s)) s
  shell_call (query_call_info c len) s = reads (encoded (O.payment_call_info c len s)) s
  shell_call (query_call_fee_details c len) s =
      reads (encoded (O.payment_call_fee_details c len s)) s
  shell_call (call_query_weight_to_fee weight) s = reads (number (O.weight_to_fee weight s)) s
  shell_call (call_query_length_to_fee len) s = reads (number (O.length_to_fee len s)) s
  shell_call (collect_collation_info header) s =
      reads (encoded (O.parachain_collation_info header s)) s
