-- ===== src/Service/Consensus/Laws.antt =====
-- How the waiting consensus routes a request, and how often it builds the Aura engine.
use parachain.Base.{
  ℕ, zero, suc, ◌≡◌, refl, ◌↔◌, ◌≢◌, true, false, none, some, ok, arith, Bool-cases, inl, inr, ap,
}
use parachain.Service.Lazy.{Builder, uninitialized, initialized}
use parachain.Service.Lazy.Laws.{access, get_mut-access}
use parachain.Service.Consensus.{
  Host, Handle, clone, update, answer, panic, State, has_aura, with_engine, with_relay,
  produce_candidate, clones,
}

pub clones_same : (n : ℕ) (h : Handle) → clones n h ≡ h
unfolding clone
clones_same zero h = refl
clones_same (suc n) h = clones_same n h

module _ (H : Host) where
  has_aura_iff : (hash : H.Hash) → (has_aura H hash ≡ true) ↔ (H.has_api hash ≡ ok true)
  unfolding has_aura
  has_aura_iff hash = ground arith

  -- A request whose parent's runtime has no Aura, or cannot say, goes to the relay chain
  -- consensus: its candidate is the answer, and no Aura engine is touched or built.
  pub produce_candidate_relay :
      (h : Handle) (request : H.Request) (s : State H)
      → (H.has_api (H.parent_hash request) ≢ ok true)
      → let p = h.relay_chain_consensus in
        let (c, e, w) = H.relay_produce (s.relay_cells p) request s.world in
        produce_candidate H h request s
        ≡ (answer c, record s { relay_cells = update s.relay_cells p e; world = w })
  unfolding produce_candidate
  produce_candidate_relay h request s none_there =
      elim (Bool-cases (has_aura H (H.parent_hash request))) [
        | inl yes_aura ↦ absurd (none_there ((has_aura_iff (H.parent_hash request)).0 yes_aura))
        | inr no_aura ↦ rw no_aura
      ]

  pub routed :
      (h : Handle) (request : H.Request) (s : State H)
      → has_aura H (H.parent_hash request) ≡ true
      → produce_candidate H h request s
        ≡ with_engine H h.aura_consensus request s (access (s.aura_cells h.aura_consensus) s.world)
  unfolding produce_candidate
  routed h request s there =
      rw there (rw (get_mut-access 0 (s.aura_cells h.aura_consensus) s.world))

  pub relayed :
      (h : Handle) (request : H.Request) (s : State H)
      → has_aura H (H.parent_hash request) ≡ false
      → produce_candidate H h request s ≡ with_relay H h.relay_chain_consensus request s
  unfolding produce_candidate
  relayed h request s none_there = rw none_there

  -- A request whose parent's runtime has Aura goes to the Aura engine. One that is there answers at
  -- once; one that is not is built first, in the world as it is, and kept; if it cannot be built,
  -- or could not before, the call panics. In each case the relay chain consensus is left alone.
  produce_candidate_aura :
      (h : Handle) (request : H.Request) (s : State H)
      → H.has_api (H.parent_hash request) ≡ ok true
      → let p = h.aura_consensus in
        ((e : H.Engine)
          → s.aura_cells p ≡ initialized e
          → let (c, e', w) = H.produce e request s.world in
            produce_candidate H h request s ≡ (
              answer c,
              record s { aura_cells = update s.aura_cells p (initialized e'); world = w },
            ))
        × ((f : Builder H.World H.Engine) (e : H.Engine) (v : H.World)
            → s.aura_cells p ≡ uninitialized (some f)
            → f s.world ≡ (some e, v)
            → let (c, e', w) = H.produce e request v in
              produce_candidate H h request s ≡ (
                answer c,
                record s { aura_cells = update s.aura_cells p (initialized e'); world = w },
              ))
        × ((f : Builder H.World H.Engine) (v : H.World)
            → s.aura_cells p ≡ uninitialized (some f)
            → f s.world ≡ (none, v)
            → produce_candidate H h request s ≡ (
              panic,
              record s { aura_cells = update s.aura_cells p (uninitialized none); world = v },
            ))
        × (s.aura_cells p ≡ uninitialized none
            → produce_candidate H h request s ≡ (
              panic,
              record s { aura_cells = update s.aura_cells p (uninitialized none); world = s.world },
            ))
  unfolding with_engine access
  produce_candidate_aura h request s there = (
    λ e held. rw (
      routed h request s ((has_aura_iff (H.parent_hash request)).1 there),
      held,
      access,
      with_engine,
    ),
    λ f e v fresh built.
        rw
          (
            routed h request s ((has_aura_iff (H.parent_hash request)).1 there),
            fresh,
            access,
            ap (λ r. r.0) built,
            with_engine,
          )
          (rw (ap (λ r. r.1) built)),
    λ f v fresh failed.
        rw
          (
            routed h request s ((has_aura_iff (H.parent_hash request)).1 there),
            fresh,
            access,
            ap (λ r. r.0) failed,
            with_engine,
          )
          (rw (ap (λ r. r.1) failed)),
    λ taken. rw (
      routed h request s ((has_aura_iff (H.parent_hash request)).1 there),
      taken,
      access,
      with_engine,
    ),
  )

  -- Counting what is built, for any measure of the world that the builder raises by one, whether it
  -- succeeds or not, and that the two engines leave alone.

  -- The first request whose parent's runtime has Aura builds the engine in the world as it is; the
  -- engine answers in the world that the builder leaves, and is kept as it is after the answer. The
  -- relay chain consensus is left alone.
  pub produce_candidate_first :
      (h : Handle) (request : H.Request) (s : State H) (f : Builder H.World H.Engine) (e : H.Engine)
      (v : H.World)
      → H.has_api (H.parent_hash request) ≡ ok true
      → s.aura_cells h.aura_consensus ≡ uninitialized (some f)
      → f s.world ≡ (some e, v)
      → let (c, e', w) = H.produce e request v in
        produce_candidate H h request s ≡ (
          answer c,
          record s {
            aura_cells = update s.aura_cells h.aura_consensus (initialized e');
            world = w;
          },
        )
  produce_candidate_first h request s f e v there fresh built =
      (produce_candidate_aura h request s there).1 f e v fresh built
