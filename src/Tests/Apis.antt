-- ===== src/Tests/Apis.antt =====
-- The runtime interface over an executive that counts its calls.
use parachain.Base.{ℕ, ◌+◌, ◌*◌, ◌≡◌, refl, false, String, List, [], ◌∷◌, none, some, ok}
use parachain.Service.Aura.{BuildAuraConsensusParams, build_consensus}
use parachain.Runtime.Periods.{millisecs_per_block}
use parachain.Command.Run.{shell_version}
use parachain.Runtime.Apis.{
  Outside, ApiCall, version, slot_duration, core_initialize_block, builder_apply_extrinsic,
  builder_finalize_block, nothing, number, encoded, of_version, call, shell_call,
}
use parachain.Runtime.Apis.Laws.{run_calls, proposal_times}

-- The state is the number of calls of the executive.
abbrev counted : Outside ℕ
counted = record {
  aura_slot_duration = λ m. 2 * m;
  aura_authorities = λ s. [];
  execute_block = λ b s. ok (s + 1);
  initialize_block = λ h s. ok (s + 1);
  apply_extrinsic = λ x s. ok (s ∷ x, s + 1);
  finalize_block = λ s. ok (s ∷ [], s + 1);
  validate_transaction = λ k x h s. ok (x, s + 1);
  executive_offchain_worker = λ h s. ok (s + 1);
  runtime_metadata = [];
  runtime_metadata_at_version = λ v. none;
  runtime_metadata_versions = 14 ∷ [];
  create_extrinsics = λ d s. d ∷ [];
  check_extrinsics = λ d b s. [];
  generate = λ seed s. ([], s);
  decode_into_raw_public_keys = λ b. none;
  system_account_nonce = λ a s. s;
  payment_info = λ x n s. x;
  payment_fee_details = λ x n s. x;
  payment_call_info = λ c n s. c;
  payment_call_fee_details = λ c n s. c;
  weight_to_fee = λ w s. w.ref_time;
  length_to_fee = λ n s. n;
  parachain_collation_info = λ h s. h;
}

abbrev building : List ApiCall
building =
    core_initialize_block (7 ∷ [])
    ∷ builder_apply_extrinsic (8 ∷ [])
    ∷ version
    ∷ builder_finalize_block
    ∷ []

built_by_shell :
    run_calls (shell_call counted) building 0
    ≡ ok (nothing ∷ encoded (1 ∷ 8 ∷ []) ∷ of_version shell_version ∷ encoded (2 ∷ []) ∷ [], 3)
unfolding shell_call
built_by_shell = refl

abbrev text_of : String → String
text_of e = e

proposal_times_example :
    (d : ℕ) × (p : BuildAuraConsensusParams ℕ) × (most : ℕ × ℕ) × (call counted slot_duration 3
      ≡ ok (number d, 3))
    × (shell_call counted slot_duration 3 ≡ ok (number d, 3))
    × (build_consensus ℕ {Error = String} text_of (ok d) false ≡ ok p)
    × (d ≡ millisecs_per_block)
    × (p.slot_duration ≡ d)
    × (p.block_proposal_slot_portion.0 * d ≡ 500 * p.block_proposal_slot_portion.1)
    × (p.max_block_proposal_slot_portion ≡ some most)
    × (most.0 * d ≡ 750 * most.1)
proposal_times_example = proposal_times counted (λ m. refl) {Error = String} ℕ text_of false 3
