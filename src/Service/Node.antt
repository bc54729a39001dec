-- ===== src/Service/Node.antt =====
-- `new_partial` and `start_node_impl` of polkadot-parachains/src/service.rs, as the calls that they
-- make, in order, and how they end. What a call answers is fixed by the outside world: `Outcomes`
-- holds the answers. Clones and the passing on of handles are left out.
pub mod Laws
use parachain.Base.{
  ℕ, Bool, true, false, String, Option, none, some, List, [], ◌∷◌, ◌++◌, Result, ok, err,
  if◌then◌else◌,
}

-- The calls that create, spawn or start something.
pub data Call : Type 0 where
  new_telemetry_worker new_full_parts spawn_telemetry new_transaction_pool : Call
  run_build_import_queue build_relay_chain_interface build_network spawn_tasks : Call
  print_hwbench warn_slow_hardware spawn_telemetry_hwbench overseer_handle : Call
  run_build_consensus start_collator start_full_node start_network : Call

-- `RelayChainError`: the variant that is looked into, and the text of any other.
pub data RelayChainError (Error : Type 0) : Type 0 where
  application : Error → RelayChainError Error
  other_relay_chain_error : String → RelayChainError Error

-- An early return with an error, or a panic.
pub data Stop (Error : Type 0) : Type 0 where
  error : Error → Stop Error
  panic : String → Stop Error

-- What is read from the two configurations and the command line. The endpoints are those of
-- `telemetry_endpoints`, if it is set.
pub record Settings : Type 0 where
  pub telemetry_endpoints : Option (List String)
  pub is_authority : Bool
  pub hwbench : Bool

module _ (Error : Type 0) where
  pub record Outcomes : Type 0 where
    pub telemetry_worker : Result Error (Unit {0})
    pub full_parts : Result Error (Unit {0})
    pub import_queue : Result Error (Unit {0})
    -- Whether a collator key is returned.
    pub relay_chain_interface : Result (RelayChainError Error) Bool
    pub network : Result Error (Unit {0})
    pub tasks : Result Error (Unit {0})
    pub overseer : Result (RelayChainError Error) (Unit {0})
    pub consensus : Result (Stop Error) (Unit {0})
    pub collator : Result Error (Unit {0})
    pub full_node : Result Error (Unit {0})
    pub check_hardware : Bool
    -- `to_string().into()`, and `sc_service::Error::Application(Box::new(e))`.
    pub from_text : String → Error
    pub boxed : RelayChainError Error → Error

  -- A run: how it ends, and the calls made.
  abbrev pub Run : Type 0 → Type 0
  Run A = Result (Stop Error) A × List Call

-- `clone().filter(|x| !x.is_empty())`: endpoints are used if there are some.
abbrev pub has_telemetry : Option (List String) → Bool
has_telemetry none = false
has_telemetry (some []) = false
has_telemetry (some (e ∷ es)) = true

module _ {Error : Type 0} where
  infixl 5 ◌>>=◌ ◌>>◌
  abbrev pub ◌>>=◌ : {A B : Type 0} → Run Error A → (A → Run Error B) → Run Error B
  ◌>>=◌ (ok a, calls) f = let (r, more) = f a in (r, calls ++ more)
  ◌>>=◌ (err e, calls) f = (err e, calls)

  abbrev pub ◌>>◌ : {A B : Type 0} → Run Error A → Run Error B → Run Error B
  m >> k = m >>= λ _. k

  abbrev pub return : {A : Type 0} → A → Run Error A
  return a = (ok a, [])

  -- A call that cannot fail, and one whose error is returned by `?`.
  abbrev pub make : Call → Run Error (Unit {0})
  make c = (ok tt, c ∷ [])

  abbrev pub attempt : {A : Type 0} → Call → Result Error A → Run Error A
  attempt c (ok a) = (ok a, c ∷ [])
  attempt c (err e) = (err (error e), c ∷ [])

  abbrev pub when : Bool → Run Error (Unit {0}) → Run Error (Unit {0})
  when true m = m
  when false m = return tt

  -- `map_err` on the relay chain interface, and on the overseer handle.
  abbrev pub relay_error :
      {A : Type 0} → (String → Error) → Result (RelayChainError Error) A → Result Error A
  relay_error from_text (ok a) = ok a
  relay_error from_text (err (application e)) = err e
  relay_error from_text (err (other_relay_chain_error t)) = err (from_text t)

  abbrev pub boxed_error :
      {A : Type 0}
      → (RelayChainError Error → Error)
      → Result (RelayChainError Error) A
      → Result Error A
  boxed_error box (ok a) = ok a
  boxed_error box (err e) = err (box e)

  unfoldable pub new_partial : Settings → Outcomes Error → Run Error (Unit {0})
  new_partial s o = do
    when (has_telemetry s.telemetry_endpoints) (attempt new_telemetry_worker o.telemetry_worker)
    attempt new_full_parts o.full_parts
    when (has_telemetry s.telemetry_endpoints) (make spawn_telemetry)
    make new_transaction_pool
    attempt run_build_import_queue o.import_queue

  -- `if let Some(hwbench) = hwbench`
  unfoldable pub report_hwbench : Settings → Outcomes Error → Run Error (Unit {0})
  report_hwbench s o = when s.hwbench (do
    make print_hwbench
    when s.is_authority (when (if o.check_hardware then false else true) (make warn_slow_hardware))
    when (has_telemetry s.telemetry_endpoints) (make spawn_telemetry_hwbench))

  -- The branch for a validator; the key is what the relay chain interface returned. The closure that
  -- builds the consensus may return an error or panic.
  unfoldable pub as_collator : Bool → Outcomes Error → Run Error (Unit {0})
  as_collator collator_key o = do
    (o.consensus, run_build_consensus ∷ [])
    if collator_key
        then attempt start_collator o.collator
        else (err (panic "Command line arguments do not allow this. qed"), [])

  unfoldable pub start_node_impl : Settings → Outcomes Error → Run Error (Unit {0})
  start_node_impl s o = do
    new_partial s o
    collator_key ←
        attempt build_relay_chain_interface (relay_error o.from_text o.relay_chain_interface)
    attempt build_network o.network
    attempt spawn_tasks o.tasks
    report_hwbench s o
    attempt overseer_handle (boxed_error o.boxed o.overseer)
    if s.is_authority then as_collator collator_key o else attempt start_full_node o.full_node
    make start_network
