-- ===== src/Service/Queue.antt =====
-- `aura_build_import_queue` of polkadot-parachains/src/service.rs: the verifier that the import queue
-- starts with. The slot duration that the runtime of the best block names, and the building of an
-- Aura verifier, are outside the repository, hence parameters.
pub mod Laws
use parachain.Base.{ℕ, Option, none, some, Result, ok, err}
use parachain.Service.Lazy.{Builder, uninitialized}
use parachain.Service.Consensus.{Host}
use parachain.Service.Verifier.{Verifier}

module _ (H : Host) (slot_duration : H.World → Result H.ApiError ℕ)
    (build_verifier : ℕ → H.World → H.Engine × H.World) where
  -- The closure that is called once: `unwrap` panics on an error.
  unfoldable pub aura_verifier : Builder H.World H.Engine
  aura_verifier w = elim (slot_duration w) [
    | err e ↦ (none, w)
    | ok duration ↦ let (e, w') = build_verifier duration w in (some e, w')
  ]

  -- With the relay chain verifier, which is built at once.
  unfoldable pub aura_build_import_queue : H.RelayEngine → H.World → Verifier H
  unfolding aura_verifier
  aura_build_import_queue relay_chain_verifier w = record {
    aura_verifier = uninitialized (some aura_verifier);
    relay_chain_verifier = relay_chain_verifier;
    world = w;
  }
