-- ===== src/Service/Node/Laws.antt =====
-- When a node is up, and what it has started.
use parachain.Base.{◌≡◌, ◌↔◌, ◌⊎◌, Bool, true, false, not, ◌&&◌, String, ok, err, any, arith}
use parachain.Service.Node.{
  Call, warn_slow_hardware, start_collator, start_full_node, start_network, panic, Settings,
  Outcomes, new_partial, report_hwbench, as_collator, start_node_impl,
}

abbrev pub is_start_network : Call → Bool
is_start_network start_network = true
is_start_network _ = false

abbrev pub is_start_collator : Call → Bool
is_start_collator start_collator = true
is_start_collator _ = false

abbrev pub is_start_full_node : Call → Bool
is_start_full_node start_full_node = true
is_start_full_node _ = false

abbrev pub is_warn_slow_hardware : Call → Bool
is_warn_slow_hardware warn_slow_hardware = true
is_warn_slow_hardware _ = false

module _ {Error : Type 0} (s : Settings) (o : Outcomes Error) where
  -- The network is started exactly when the node comes up: a node that stops early, by an error or
  -- a panic, has not joined it, and one that comes up has.
  pub start_network_iff :
      (any is_start_network (start_node_impl s o).1 ≡ true) ↔ ((start_node_impl s o).0 ≡ ok tt)
  unfolding start_node_impl new_partial report_hwbench as_collator
  start_network_iff = ground arith

  -- However the run ends, a collator is started only on an authority, a full node only elsewhere,
  -- and only an authority with slow hardware and a benchmark is warned.
  pub roles :
      (any is_start_collator (start_node_impl s o).1 && not s.is_authority ≡ false)
      × (any is_start_full_node (start_node_impl s o).1 && s.is_authority ≡ false)
      × (any is_warn_slow_hardware (start_node_impl s o).1
            && not (s.is_authority && s.hwbench && not o.check_hardware)
          ≡ false)
  unfolding start_node_impl new_partial report_hwbench as_collator
  roles = ground arith

  -- The run panics only on an authority, for one of two reasons: the closure that builds the consensus
  -- panics, or the relay chain interface came up without a collator key and the consensus is built.
  -- Neither the collator nor the network is started then.
  pub panic_causes :
      {text : String}
      → (start_node_impl s o).0 ≡ err (panic text)
      → (s.is_authority ≡ true)
        × ((o.consensus ≡ err (panic text))
            ⊎ ((o.relay_chain_interface ≡ ok false) × (o.consensus ≡ ok tt)))
        × (any is_start_collator (start_node_impl s o).1 ≡ false)
        × (any is_start_network (start_node_impl s o).1 ≡ false)
  unfolding start_node_impl new_partial report_hwbench as_collator
  panic_causes h = ground arith
