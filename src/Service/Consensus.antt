-- ===== src/Service/Consensus.antt =====
-- `WaitForAuraConsensus` of polkadot-parachains/src/service.rs. The client, the two
-- consensus engines (for the verifier: the two verifiers) are outside the repository: `Host` takes
-- their types and
-- the methods that are called. A method that takes `&mut self` returns the new value of `self`.
pub mod Laws
pub mod Builds
use parachain.Base.{
  ℕ, zero, suc, Bool, true, false, Option, none, some, List, [], ◌∷◌, String, Result, ok, err,
  unwrap_or, ◌==◌, if◌then◌else◌,
}
use parachain.Service.Lazy.{
  Builder, BuildOnAccess, uninitialized, initialized, Access, value, panicked, no_fuel, get_mut,
  turns,
}

pub record Host : Type 1 where
  pub World : Type 0
  pub Hash : Type 0
  -- The parent header, the relay parent and the validation data of a call.
  pub Request : Type 0
  -- What is answered: `Option<ParachainCandidate>`, or the `Result` of a verifier.
  pub Answer : Type 0
  pub ApiError : Type 0
  pub Engine : Type 0
  pub RelayEngine : Type 0
  pub parent_hash : Request → Hash
  -- `runtime_api().has_api::<dyn AuraApi>(hash)`: what the runtime of that block has is fixed.
  pub has_api : Hash → Result ApiError Bool
  pub produce : Engine → Request → World → Answer × Engine × World
  pub relay_produce : RelayEngine → Request → World → Answer × RelayEngine × World

-- The two `Arc`s of a `WaitForAuraConsensus`, as addresses.
pub record Handle : Type 0 where
  pub aura_consensus : ℕ
  pub relay_chain_consensus : ℕ

-- `clone` copies the pointers.
unfoldable pub clone : Handle → Handle
clone h = record {
  aura_consensus = h.aura_consensus;
  relay_chain_consensus = h.relay_chain_consensus;
}

abbrev pub update {ℓ} : {A : Type ℓ} → (ℕ → A) → ℕ → A → ℕ → A
update cells p v q = if p == q then v else cells q

-- How a call ends.
pub data Produced (C : Type 0) : Type 0 where
  answer : C → Produced C
  panic : Produced C
  stuck : Produced C

-- A handle that was cloned from another so many times.
abbrev pub clones : ℕ → Handle → Handle
clones zero h = h
clones (suc n) h = clone (clones n h)

module _ (H : Host) where
  -- What the handles point to, and the rest of the world.
  pub record State : Type 0 where
    pub aura_cells : ℕ → BuildOnAccess H.World H.Engine
    pub relay_cells : ℕ → H.RelayEngine
    pub world : H.World

  unfoldable pub has_aura : H.Hash → Bool
  has_aura hash = unwrap_or (H.has_api hash) false

  -- The branch for Aura, once the lock is held and `get_mut` has returned.
  unfoldable pub with_engine :
      ℕ
      → H.Request
      → State
      → Access H.Engine × BuildOnAccess H.World H.Engine × H.World
      → Produced H.Answer × State
  with_engine p request s (value e, cell, w) =
      let (c, e', w') = H.produce e request w in
      (answer c, record s { aura_cells = update s.aura_cells p (initialized e'); world = w' })
  with_engine p request s (panicked, cell, w) =
      (panic, record s { aura_cells = update s.aura_cells p cell; world = w })
  with_engine p request s (no_fuel, cell, w) =
      (stuck, record s { aura_cells = update s.aura_cells p cell; world = w })

  unfoldable pub with_relay : ℕ → H.Request → State → Produced H.Answer × State
  with_relay p request s =
      let (c, e', w') = H.relay_produce (s.relay_cells p) request s.world in
      (answer c, record s { relay_cells = update s.relay_cells p e'; world = w' })

  unfoldable pub produce_candidate : Handle → H.Request → State → Produced H.Answer × State
  unfolding with_engine with_relay
  produce_candidate h request s =
      if has_aura (H.parent_hash request)
      then with_engine h.aura_consensus request s
          (get_mut turns (s.aura_cells h.aura_consensus) s.world)
      else with_relay h.relay_chain_consensus request s

  -- Calls one after another, as the locks order them, each through some clone of the first handle.
  unfoldable pub run : Handle → List (ℕ × H.Request) → State → List (Produced H.Answer) × State
  run h [] s = ([], s)
  run h ((n, request) ∷ calls) s =
      let (c, t) = produce_candidate (clones n h) request s in
      let (cs, u) = run h calls t in (c ∷ cs, u)
