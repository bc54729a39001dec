-- ===== src/Service/Consensus/Builds.antt =====
-- How often the Aura engine is built, by any requests through any clones of one handle.
use parachain.Base.{
  ℕ, ◌+◌, ◌≡◌, refl, ◌∙◌, Bool, true, false, some, List, [], ◌∷◌, ==_iff, if◌then◌else◌, any, arith,
  Bool-cases, inl, inr, ap,
}
use parachain.Service.Lazy.{Builder, BuildOnAccess, uninitialized, Access, value, panicked, no_fuel}
use parachain.Service.Lazy.Laws.{access, IsUsed, access_of_IsUsed, access_fresh}
use parachain.Service.Consensus.{
  Host, Handle, State, has_aura, with_engine, with_relay, produce_candidate, run,
}
use parachain.Service.Consensus.Laws.{routed, relayed, clones_same}

-- The requests that go to the Aura engine.
abbrev pub wants_aura : (H : Host) → ℕ × H.Request → Bool
wants_aura H (n, request) = has_aura H (H.parent_hash request)

-- Counting what is built, for any measure of the world that the builder raises by one, whether it
-- succeeds or not, and that the two engines leave alone.
module _ (H : Host) (built : H.World → ℕ) (f : Builder H.World H.Engine)
    (f_counts : (w : H.World) → built (f w).1 ≡ built w + 1)
    (produce_keeps : (e : H.Engine) (request : H.Request) (w : H.World)
      → built (H.produce e request w).2 ≡ built w)
    (relay_produce_keeps : (e : H.RelayEngine) (request : H.Request) (w : H.World)
      → built (H.relay_produce e request w).2 ≡ built w) where
  with_engine-IsUsed :
      (p : ℕ) (request : H.Request) (s : State H)
      (r : Access H.Engine × BuildOnAccess H.World H.Engine × H.World)
      → IsUsed r.1
      → IsUsed ((with_engine H p request s r).1.aura_cells p)
        × (built (with_engine H p request s r).1.world ≡ built r.2)
  unfolding with_engine
  with_engine-IsUsed p request s (value e, cell, w) u =
      rw ((==_iff p p).1 refl, with_engine) (tt, produce_keeps e request w)
  with_engine-IsUsed p request s (panicked, cell, w) u =
      rw ((==_iff p p).1 refl, with_engine) (u, refl)
  with_engine-IsUsed p request s (no_fuel, cell, w) u =
      rw ((==_iff p p).1 refl, with_engine) (u, refl)

  with_relay_keeps :
      (p : ℕ) (request : H.Request) (s : State H)
      → ((with_relay H p request s).1.aura_cells ≡ s.aura_cells)
        × (built (with_relay H p request s).1.world ≡ built s.world)
  unfolding with_relay
  with_relay_keeps p request s = (refl, relay_produce_keeps (s.relay_cells p) request s.world)

  -- Once the builder has been used, no request builds again.
  produce_candidate-IsUsed :
      (h : Handle) (request : H.Request) (s : State H)
      → IsUsed (s.aura_cells h.aura_consensus)
      → let t = (produce_candidate H h request s).1 in
        IsUsed (t.aura_cells h.aura_consensus) × (built t.world ≡ built s.world)
  produce_candidate-IsUsed h request s u = elim (Bool-cases (has_aura H (H.parent_hash request))) [
    | inl aura ↦
        let (same, still) = access_of_IsUsed (s.aura_cells h.aura_consensus) s.world u in
        let (used, count) =
          with_engine-IsUsed h.aura_consensus request s
            (access (s.aura_cells h.aura_consensus) s.world) (rw same u) in
        rw (routed H h request s aura) (used, count ∙ ap built still)
    | inr relay ↦
        let (cells, count) = with_relay_keeps h.relay_chain_consensus request s in
        rw (relayed H h request s relay) (rw (ap (λ c. c h.aura_consensus) cells) u, count)
  ]

  produce_candidate_fresh :
      (h : Handle) (request : H.Request) (s : State H)
      → s.aura_cells h.aura_consensus ≡ uninitialized (some f)
      → has_aura H (H.parent_hash request) ≡ true
      → let t = (produce_candidate H h request s).1 in
        IsUsed (t.aura_cells h.aura_consensus) × (built t.world ≡ built s.world + 1)
  produce_candidate_fresh h request s fresh aura =
      let (used, once) = access_fresh f s.world in
      let (kept, count) =
        with_engine-IsUsed h.aura_consensus request s (access (uninitialized (some f)) s.world)
          used in
      rw (routed H h request s aura, fresh) (kept, count ∙ ap built once ∙ f_counts s.world)

  produce_candidate_relayed :
      (h : Handle) (request : H.Request) (s : State H)
      → has_aura H (H.parent_hash request) ≡ false
      → let t = (produce_candidate H h request s).1 in
        (t.aura_cells ≡ s.aura_cells) × (built t.world ≡ built s.world)
  produce_candidate_relayed h request s relay =
      rw (relayed H h request s relay) (with_relay_keeps h.relay_chain_consensus request s)

  run_used :
      (h : Handle) (calls : List (ℕ × H.Request)) (s : State H)
      → IsUsed (s.aura_cells h.aura_consensus)
      → built (run H h calls s).1.world ≡ built s.world
  unfolding run
  run_used h [] s u = refl
  run_used h ((n, request) ∷ calls) s u =
      let (used, count) = produce_candidate-IsUsed h request s u in
      rw (clones_same n h) (run_used h calls (produce_candidate H h request s).1 used ∙ count)

  -- Start with an engine that is not built. After any requests, through the handle or any clones of
  -- it, it has been built exactly once if one of them was for a parent with Aura, and not at all
  -- otherwise, also where building it panics.
  pub run_builds :
      (h : Handle) (calls : List (ℕ × H.Request)) (s : State H)
      → s.aura_cells h.aura_consensus ≡ uninitialized (some f)
      → built (run H h calls s).1.world
        ≡ built s.world + (if any (wants_aura H) calls then 1 else 0)
  unfolding run
  run_builds h [] s fresh = omega arith
  run_builds h ((n, request) ∷ calls) s fresh =
      rw (clones_same n h) (elim (Bool-cases (has_aura H (H.parent_hash request))) [
        | inl aura ↦
            let (used, count) = produce_candidate_fresh h request s fresh aura in
            rw aura (run_used h calls (produce_candidate H h request s).1 used ∙ count)
        | inr relay ↦
            let (cells, count) = produce_candidate_relayed h request s relay in
            rw relay (
              run_builds h calls (produce_candidate H h request s).1
                (ap (λ c. c h.aura_consensus) cells ∙ fresh)
              ∙ ap (λ k. k + (if any (wants_aura H) calls then 1 else 0)) count)
      ])
