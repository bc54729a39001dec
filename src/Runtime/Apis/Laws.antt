-- ===== src/Runtime/Apis/Laws.antt =====
-- The answers of the two runtimes against each other, and the slots that a collator is told of.
use parachain.Base.{
  ℕ, ◌*◌, ◌≡◌, refl, ◌∙◌, ap, Bool, String, List, [], ◌∷◌, map, some, Result, ok, err, ◌>>=◌,
}
use parachain.Service.Aura.{BuildAuraConsensusParams, build_consensus}
use parachain.Runtime.Periods.{millisecs_per_block, minimum_period}
use parachain.Command.Run.{shell_version}
use parachain.Runtime.Apis.{
  Encoded, Outside, ApiCall, slot_duration, core_execute_block, core_initialize_block,
  builder_apply_extrinsic, builder_finalize_block, pool_validate_transaction, offchain_worker,
  generate_session_keys, Answer, of_version, number, writes, answers, call, shell_call,
}

-- Calls one after the other, up to the first trap.
abbrev pub run_calls :
    {State : Type 0}
    → (ApiCall → State → Result String (Answer × State))
    → List ApiCall
    → State
    → Result String (List Answer × State)
run_calls f [] s = ok ([], s)
run_calls f (c ∷ cs) s =
    f c s >>= λ (a, s'). run_calls f cs s' >>= λ (rest, s''). ok (a ∷ rest, s'')

-- The answer with the shell's version in place of any other.
abbrev pub with_shell_version : Answer → Answer
with_shell_version (of_version v) = of_version shell_version
with_shell_version a = a

abbrev pub map_answers : {E A B S : Type 0} → (A → B) → Result E (A × S) → Result E (B × S)
map_answers f (ok (a, s)) = ok (f a, s)
map_answers f (err e) = err e

-- The calls that only read: all but those of the executive and the making of keys.
abbrev pub IsQuery : ApiCall → Type 0
IsQuery (core_execute_block _) = ⊥
IsQuery (core_initialize_block _) = ⊥
IsQuery (builder_apply_extrinsic _) = ⊥
IsQuery builder_finalize_block = ⊥
IsQuery (pool_validate_transaction _ _ _) = ⊥
IsQuery (offchain_worker _) = ⊥
IsQuery (generate_session_keys _) = ⊥
IsQuery _ = Unit

writes_alike :
    {S : Type 0} (r : Result String S) → writes r ≡ map_answers with_shell_version (writes r)
writes_alike (ok s) = refl
writes_alike (err e) = refl

answers_alike :
    {S : Type 0} (r : Result String (Encoded × S))
    → answers r ≡ map_answers with_shell_version (answers r)
answers_alike (ok (a, s)) = refl
answers_alike (err e) = refl

module _ {State : Type 0} (O : Outside State) where
  call_alike :
      (c : ApiCall) (s : State) → shell_call O c s ≡ map_answers with_shell_version (call O c s)
  unfolding shell_call call
  call_alike (core_execute_block block) s = writes_alike (O.execute_block block s)
  call_alike (core_initialize_block header) s = writes_alike (O.initialize_block header s)
  call_alike (offchain_worker header) s = writes_alike (O.executive_offchain_worker header s)
  call_alike (builder_apply_extrinsic x) s = answers_alike (O.apply_extrinsic x s)
  call_alike builder_finalize_block s = answers_alike (O.finalize_block s)
  call_alike (pool_validate_transaction k x h) s = answers_alike (O.validate_transaction k x h s)
  call_alike c s = refl

  run_alike :
      (r : Result String (Answer × State)) (f g : State → Result String (List Answer × State))
      → ((s : State) → f s ≡ map_answers (map with_shell_version) (g s))
      → (map_answers with_shell_version r >>= λ (a, s'). f s' >>= λ (rest, s''). ok (a ∷ rest, s''))
        ≡ map_answers
            (map with_shell_version)
            (r >>= λ (a, s'). g s' >>= λ (rest, s''). ok (a ∷ rest, s''))
  run_alike (err e) f g h = refl
  run_alike (ok (a, s)) f g h =
      rw (h s)
        (elim (g s)
          as (λ r.
            (map_answers (map with_shell_version) r >>= λ (rest, s'').
            ok (with_shell_version a ∷ rest, s''))
            ≡ map_answers (map with_shell_version) (r >>= λ (rest, s''). ok (a ∷ rest, s''))) [
              | ok _ ↦ refl
              | err _ ↦ refl
            ])

  runs_alike :
      (cs : List ApiCall) (s : State)
      → run_calls (shell_call O) cs s
        ≡ map_answers (map with_shell_version) (run_calls (call O) cs s)
  runs_alike [] s = refl
  runs_alike (c ∷ cs) s = rw (call_alike c s) (run_alike (call O c s) _ _ (runs_alike cs))

  query_keeps : (c : ApiCall) (s : State) → IsQuery c → (a : Answer) × (call O c s ≡ ok (a, s))
  unfolding call
  query_keeps (core_execute_block _) s h = absurd h
  query_keeps (core_initialize_block _) s h = absurd h
  query_keeps (offchain_worker _) s h = absurd h
  query_keeps (builder_apply_extrinsic _) s h = absurd h
  query_keeps builder_finalize_block s h = absurd h
  query_keeps (pool_validate_transaction _ _ _) s h = absurd h
  query_keeps (generate_session_keys _) s h = absurd h
  query_keeps c s h = (_, refl)

  -- Over the same executive and pallets, any sequence of calls is answered by the shell as by the full
  -- runtime, up to the first trap and with the same state in the end, where only the version differs. A
  -- call that only reads is always answered, and leaves the state, in both.
  pub apis_alike :
      (cs : List ApiCall) (c : ApiCall) (s : State)
      → IsQuery c
      → (run_calls (shell_call O) cs s
          ≡ map_answers (map with_shell_version) (run_calls (call O) cs s))
        × ((a : Answer) × (call O c s ≡ ok (a, s)))
        × ((a : Answer) × (shell_call O c s ≡ ok (a, s)))
  apis_alike cs c s query =
      let (a, e) = query_keeps c s query in
      (
        runs_alike cs s,
        (a, e),
        (with_shell_version a, call_alike c s ∙ ap (map_answers with_shell_version) e),
      )

-- `pallet_aura` is documented to take a slot as twice the minimum period between two blocks.
abbrev pub AuraIsDocumented : {State : Type 0} → Outside State → Type 0
AuraIsDocumented O = (m : ℕ) → O.aura_slot_duration m ≡ 2 * m

module _ {State : Type 0} (O : Outside State) (D : AuraIsDocumented O) where
  -- Both runtimes name the block time as the slot duration, whatever their state. A collator that is
  -- told so always builds its consensus, with slots of the block time: it has 500 ms of a slot to
  -- propose a block in, and at most 750 ms where slots were skipped.
  pub proposal_times :
      {ApiError Error : Type 0} (Inherent : Type 0) (unwrap_text : ApiError → String) (force : Bool)
      (s : State)
      → (d : ℕ) × (p : BuildAuraConsensusParams Inherent) × (most : ℕ × ℕ) × (call O slot_duration s
          ≡ ok (number d, s))
        × (shell_call O slot_duration s ≡ ok (number d, s))
        × (build_consensus Inherent {Error = Error} unwrap_text (ok d) force ≡ ok p)
        × (d ≡ millisecs_per_block)
        × (p.slot_duration ≡ d)
        × (p.block_proposal_slot_portion.0 * d ≡ 500 * p.block_proposal_slot_portion.1)
        × (p.max_block_proposal_slot_portion ≡ some most)
        × (most.0 * d ≡ 750 * most.1)
  unfolding call shell_call build_consensus
  proposal_times Inherent unwrap_text force s =
      let e = D minimum_period in
      (
        _,
        _,
        (1, 16),
        ap (λ d. ok (number d, s)) e,
        ap (λ d. ok (number d, s)) e,
        refl,
        refl,
        refl,
        refl,
        refl,
        refl,
      )
