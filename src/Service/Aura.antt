-- ===== src/Service/Aura.antt =====
-- `start_generic_aura_node` of polkadot-parachains/src/service.rs: the closure that builds the Aura
-- consensus of a collator, with the providers of inherent data that it is given, and those of the
-- Aura verifier in `aura_build_import_queue`. The slot duration that the client's runtime names, the
-- system's time, the slot of a time and the parachain's inherent are outside the repository, hence
-- parameters. Handles that are passed on are left out.
pub mod Laws
use parachain.Base.{ℕ, Bool, String, Option, none, some, Result, ok, err}
use parachain.Service.Node.{Stop, panic, Settings, Outcomes, Run, start_node_impl}

-- What is asked when a block is authored, and what `from_timestamp_and_slot_duration` makes of a
-- time in milliseconds and a slot duration.
pub record Clock : Type 0 where
  pub from_system_time : ℕ
  pub slot_of : ℕ → ℕ → ℕ

-- The provider of the verifier asks for no parachain inherent, and cannot fail.
unfoldable pub verifier_inherent_data_providers : Clock → ℕ → ℕ × ℕ
verifier_inherent_data_providers clock slot_duration =
    let timestamp : ℕ = clock.from_system_time in (clock.slot_of timestamp slot_duration, timestamp)

abbrev built : {E A : Type 0} → Result E A → Result E (Unit {0})
built (ok a) = ok tt
built (err e) = err e

module _ (Inherent : Type 0) where
  -- The providers of the collator; `create_at` is the answer of `ParachainInherentData::create_at`.
  unfoldable pub create_inherent_data_providers :
      Clock → ℕ → Option Inherent → Result String (ℕ × ℕ × Inherent)
  create_inherent_data_providers clock slot_duration create_at =
      let timestamp : ℕ = clock.from_system_time in
      let slot : ℕ = clock.slot_of timestamp slot_duration in
      elim create_at [
        | none ↦ err "Failed to create parachain inherent"
        | some parachain_inherent ↦ ok (slot, timestamp, parachain_inherent)
      ]

  -- `BuildAuraConsensusParams`, as far as it is not handed through; portions of a slot as fractions.
  pub record BuildAuraConsensusParams : Type 0 where
    pub create_inherent_data_providers : Clock → Option Inherent → Result String (ℕ × ℕ × Inherent)
    pub backoff_authoring_blocks : Option (Unit {0})
    pub force_authoring : Bool
    pub slot_duration : ℕ
    pub block_proposal_slot_portion : ℕ × ℕ
    pub max_block_proposal_slot_portion : Option (ℕ × ℕ)

  -- The closure: `unwrap` panics with a text about the error, and nothing else can fail.
  unfoldable pub build_consensus :
      {ApiError Error : Type 0}
      → (ApiError → String)
      → Result ApiError ℕ
      → Bool
      → Result (Stop Error) BuildAuraConsensusParams
  build_consensus unwrap_text (err e) force_authoring = err (panic (unwrap_text e))
  build_consensus unwrap_text (ok duration) force_authoring = ok (record {
    create_inherent_data_providers =
        λ clock create_at. create_inherent_data_providers clock duration create_at;
    backoff_authoring_blocks = none;
    force_authoring = force_authoring;
    slot_duration = duration;
    block_proposal_slot_portion = (1, 24);
    max_block_proposal_slot_portion = some (1, 16);
  })

  -- The node, with the two closures in place: building the import queue cannot fail, and the consensus
  -- is built as above. All other answers are the world's.
  unfoldable pub start_generic_aura_node :
      {ApiError Error : Type 0}
      → (ApiError → String)
      → Result ApiError ℕ
      → Bool
      → Settings
      → Outcomes Error
      → Run Error (Unit {0})
  unfolding build_consensus
  start_generic_aura_node unwrap_text slot_duration force_authoring s o =
      start_node_impl s (record o {
        import_queue = ok tt;
        consensus = built (build_consensus unwrap_text slot_duration force_authoring);
      })
