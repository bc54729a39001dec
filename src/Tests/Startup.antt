-- ===== src/Tests/Startup.antt =====
-- A collator's start with the flag against hardware benchmarks.
use parachain.Base.{◌≡◌, ◌↔◌, ◌⊎◌, refl, true, false, String, [], ◌∷◌, none, some, ok}
use parachain.Service.Node.{Settings, Outcomes, RelayChainError, report_hwbench}
use parachain.Command.Startup.{create_dir_all, gather_hwbench, collect_hwbench, log_start}
use parachain.Command.Startup.Laws.{is_some, collect_hwbench_iff}

abbrev measured : String → String
measured path = "fast"

abbrev text : RelayChainError String → String
text e = "relay chain"

abbrev collator : Settings
collator = record { telemetry_endpoints = none; is_authority = true; hwbench = false }

abbrev all_well : Outcomes String
all_well = record {
  telemetry_worker = ok tt;
  full_parts = ok tt;
  import_queue = ok tt;
  relay_chain_interface = ok true;
  network = ok tt;
  tasks = ok tt;
  overseer = ok tt;
  consensus = ok tt;
  collator = ok tt;
  full_node = ok tt;
  check_hardware = true;
  from_text = λ t. t;
  boxed = text;
}

-- With the flag the benchmarks are run, and their result is dropped.
flag_runs :
    collect_hwbench measured true (some "db")
    ≡ (none, create_dir_all "db" ∷ gather_hwbench "db" ∷ [])
unfolding collect_hwbench
flag_runs = refl

warned_not :
    log_start "2015" "5Ec" "0x00" true [] []
    ≡ "Parachain id: 2015" ∷ "Parachain Account: 5Ec" ∷ "Parachain genesis state: 0x00"
      ∷ "Is collating: yes" ∷ []
unfolding log_start
warned_not = refl

abbrev db : String
db = "db"

abbrev fast : String
fast = "fast"

collect_hwbench_iff_example :
    let (found, effects) = collect_hwbench measured true (some db) in
    ((effects ≡ create_dir_all db ∷ gather_hwbench db ∷ []) ↔ (some db ≡ some db))
    × ((effects ≡ []) ↔ (some db ≡ none))
    × ((found ≡ some fast)
        ↔ ((true ≡ false) × ((q : String) × (some db ≡ some q) × (measured q ≡ fast))))
    × (((report_hwbench (record collator { hwbench = is_some found }) all_well).1 ≡ [])
        ↔ ((true ≡ true) ⊎ (some db ≡ none)))
collect_hwbench_iff_example = collect_hwbench_iff measured true (some db) db fast collator all_well
