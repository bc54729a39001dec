-- ===== src/Service/Verifier/Laws.antt =====
-- The verifier of the import queue against the waiting consensus.
use parachain.Base.{
  ℕ, zero, ◌||◌, ◌+◌, ◌≡◌, refl, ◌∙◌, some, List, [], ◌∷◌, ==_iff, if◌then◌else◌, any, Bool-cases,
  inl, inr, ap, map,
}
use parachain.Service.Lazy.{
  Builder, BuildOnAccess, uninitialized, Access, value, panicked, no_fuel, get_mut, turns,
}
use parachain.Service.Consensus.{Host, Handle, State, has_aura, with_engine, produce_candidate, run}
use parachain.Service.Consensus.Builds.{wants_aura, run_builds}
use parachain.Service.Verifier.{Verifier, with_verifier, verify, verify_all}

module _ (H : Host) (h : Handle) where
  -- What a handle points to, as a verifier.
  unfoldable pub view : State H → Verifier H
  view s = record {
    aura_verifier = s.aura_cells h.aura_consensus;
    relay_chain_verifier = s.relay_cells h.relay_chain_consensus;
    world = s.world;
  }

  with_verifier-view :
      (b : H.Request) (s : State H) (r : Access H.Engine × BuildOnAccess H.World H.Engine × H.World)
      → with_verifier H b (view s) r
        ≡ ((with_engine H h.aura_consensus b s r).0, view (with_engine H h.aura_consensus b s r).1)
  unfolding with_verifier with_engine view
  with_verifier-view b s (value e, cell, w) = rw ((==_iff h.aura_consensus h.aura_consensus).1 refl)
  with_verifier-view b s (panicked, cell, w) =
      rw ((==_iff h.aura_consensus h.aura_consensus).1 refl)
  with_verifier-view b s (no_fuel, cell, w) = rw ((==_iff h.aura_consensus h.aura_consensus).1 refl)

  -- Verifying a block gives the answer, the builds and the engines that the waiting consensus gives
  -- for the same request, on any store in which the handle points to the verifier's parts.
  pub verify-produce_candidate :
      (b : H.Request) (s : State H)
      → verify H b (view s) ≡ ((produce_candidate H h b s).0, view (produce_candidate H h b s).1)
  unfolding verify produce_candidate view
  verify-produce_candidate b s = elim (Bool-cases (has_aura H (H.parent_hash b))) [
    | inl aura ↦
        rw aura (with_verifier-view b s (get_mut turns (s.aura_cells h.aura_consensus) s.world))
    | inr relay ↦ rw (relay, (==_iff h.relay_chain_consensus h.relay_chain_consensus).1 refl)
  ]

  verify_all-run :
      (blocks : List H.Request) (s : State H)
      → verify_all H blocks (view s) ≡ (
        (run H h (map (λ b. (zero, b)) blocks) s).0,
        view (run H h (map (λ b. (zero, b)) blocks) s).1,
      )
  unfolding verify_all run
  verify_all-run [] s = refl
  verify_all-run (b ∷ blocks) s =
      rw (verify-produce_candidate b s, verify_all-run blocks (produce_candidate H h b s).1)

any-map :
    (H : Host) (blocks : List H.Request)
    → any (wants_aura H) (map (λ b. (zero, b)) blocks)
      ≡ any (λ b. has_aura H (H.parent_hash b)) blocks
any-map H [] = refl
any-map H (b ∷ blocks) = ap (λ t. has_aura H (H.parent_hash b) || t) (any-map H blocks)

-- The import queue builds the Aura verifier once, at the first block whose parent has Aura, and not
-- at all if there is none; the measure of what is built is one that the builder raises by one and
-- that the two verifiers leave alone.
pub verify_all_builds :
    (H : Host) (built : H.World → ℕ) (f : Builder H.World H.Engine)
    → ((w : H.World) → built (f w).1 ≡ built w + 1)
    → ((e : H.Engine) (b : H.Request) (w : H.World) → built (H.produce e b w).2 ≡ built w)
    → ((e : H.RelayEngine) (b : H.Request) (w : H.World)
        → built (H.relay_produce e b w).2 ≡ built w)
    → (blocks : List H.Request) (v : Verifier H) → v.aura_verifier ≡ uninitialized (some f)
    → built (verify_all H blocks v).1.world
      ≡ built v.world + (if any (λ b. has_aura H (H.parent_hash b)) blocks then 1 else 0)
unfolding view
verify_all_builds H built f f_counts keeps relay_keeps blocks v fresh =
    let h : Handle = record { aura_consensus = 0; relay_chain_consensus = 0 } in
    let s : State H = record {
      aura_cells = λ _. v.aura_verifier;
      relay_cells = λ _. v.relay_chain_verifier;
      world = v.world;
    } in
    ap (λ r. built r.1.world) (verify_all-run H h blocks s)
    ∙ run_builds H built f f_counts keeps relay_keeps h (map (λ b. (zero, b)) blocks) s fresh
    ∙ ap (λ t. built v.world + (if t then 1 else 0)) (any-map H blocks)
