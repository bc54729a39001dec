-- ===== src/Tests/Node.antt =====
-- The node's startup for concrete answers of the world, and a collator's clock.
use parachain.Base.{
  ℕ, ◌/◌, ◌≡◌, refl, ◌↔◌, ◌⊎◌, Bool, true, false, some, [], ◌∷◌, ok, err, any, String,
}
use parachain.Service.Aura.{Clock, build_consensus, start_generic_aura_node}
use parachain.Service.Aura.Laws.{aura_node_without_duration}
use parachain.Service.Node.{
  panic, Settings, new_telemetry_worker, new_full_parts, spawn_telemetry, new_transaction_pool,
  run_build_import_queue, build_relay_chain_interface, build_network, spawn_tasks, print_hwbench,
  warn_slow_hardware, spawn_telemetry_hwbench, overseer_handle, run_build_consensus, Outcomes,
  new_partial, report_hwbench, as_collator, start_node_impl,
}
use parachain.Service.Node.Laws.{
  is_start_network, is_start_collator, start_network_iff, panic_causes,
}

abbrev authority : Settings
authority = record {
  telemetry_endpoints = some ("wss://telemetry" ∷ []);
  is_authority = true;
  hwbench = true;
}

-- Everything goes well; the collator key is there or not.
abbrev all_well : Bool → Outcomes String
all_well collator_key = record {
  telemetry_worker = ok tt;
  full_parts = ok tt;
  import_queue = ok tt;
  relay_chain_interface = ok collator_key;
  network = ok tt;
  tasks = ok tt;
  overseer = ok tt;
  consensus = ok tt;
  collator = ok tt;
  full_node = ok tt;
  check_hardware = false;
  from_text = λ t. t;
  boxed = λ e. "boxed";
}

comes_up : (start_node_impl authority (all_well true)).0 ≡ ok tt
unfolding start_node_impl new_partial report_hwbench as_collator
comes_up = refl

start_network_iff_example :
    (any is_start_network (start_node_impl authority (all_well true)).1 ≡ true)
    ↔ ((start_node_impl authority (all_well true)).0 ≡ ok tt)
start_network_iff_example = start_network_iff authority (all_well true)

panics :
    (start_node_impl authority (all_well false)).0
    ≡ err (panic "Command line arguments do not allow this. qed")
unfolding start_node_impl new_partial report_hwbench as_collator
panics = refl

panic_causes_example :
    (true ≡ true)
    × ((Outcomes.consensus (all_well false)
          ≡ err (panic "Command line arguments do not allow this. qed"))
        ⊎ ((Outcomes.relay_chain_interface (all_well false) ≡ ok false)
            × (Outcomes.consensus (all_well false) ≡ ok tt)))
    × (any is_start_collator (start_node_impl authority (all_well false)).1 ≡ false)
    × (any is_start_network (start_node_impl authority (all_well false)).1 ≡ false)
panic_causes_example = panic_causes authority (all_well false) panics

-- The runtime of a collator names no slot duration: the closure panics, and nothing more is started.
unnamed :
    start_generic_aura_node ℕ (λ (e : String). e) (err "no Aura") false authority (all_well true)
    ≡ (
      err (panic "no Aura"),
      new_telemetry_worker ∷ new_full_parts ∷ spawn_telemetry ∷ new_transaction_pool
          ∷ run_build_import_queue ∷ build_relay_chain_interface ∷ build_network ∷ spawn_tasks
          ∷ print_hwbench ∷ warn_slow_hardware ∷ spawn_telemetry_hwbench ∷ overseer_handle
          ∷ run_build_consensus ∷ [],
    )
unfolding start_generic_aura_node start_node_impl new_partial report_hwbench as_collator
    build_consensus
unnamed = refl

aura_node_without_duration_example :
    ((start_generic_aura_node ℕ
        (λ (e : String). e)
        (err "no Aura")
        false
        authority
        (all_well true)).0
      ≡ ok tt)
    ↔ (((start_generic_aura_node ℕ
            (λ (e : String). e)
            (ok 12_000)
            false
            authority
            (all_well true)).0
          ≡ ok tt)
        × (true ≡ false))
aura_node_without_duration_example =
    aura_node_without_duration ℕ (λ (e : String). e) authority (all_well true) false "no Aura"
      12_000

-- Half a slot into the third slot.
abbrev clock : Clock
clock = record { from_system_time = 30_000; slot_of = λ t d. t / d }
