-- ===== src/Service/Verifier.antt =====
-- `Verifier` of polkadot-parachains/src/service.rs. A request is the block import, its parent hash
-- that of the block's header; the two verifiers are the engines of the `Host`.
pub mod Laws
use parachain.Base.{ℕ, Bool, List, [], ◌∷◌, if◌then◌else◌}
use parachain.Service.Lazy.{
  BuildOnAccess, initialized, Access, value, panicked, no_fuel, get_mut, turns,
}
use parachain.Service.Consensus.{Host, Produced, answer, panic, stuck, has_aura}

module _ (H : Host) where
  pub record Verifier : Type 0 where
    pub aura_verifier : BuildOnAccess H.World H.Engine
    pub relay_chain_verifier : H.RelayEngine
    pub world : H.World

  with_verifier :
      H.Request
      → Verifier
      → Access H.Engine × BuildOnAccess H.World H.Engine × H.World
      → Produced H.Answer × Verifier
  with_verifier block_import v (value e, cell, w) =
      let (r, e', w') = H.produce e block_import w in
      (answer r, record v { aura_verifier = initialized e'; world = w' })
  with_verifier block_import v (panicked, cell, w) =
      (panic, record v { aura_verifier = cell; world = w })
  with_verifier block_import v (no_fuel, cell, w) =
      (stuck, record v { aura_verifier = cell; world = w })

  relay_verify : H.Request → Verifier → Produced H.Answer × Verifier
  relay_verify block_import v =
      let (r, e', w') = H.relay_produce v.relay_chain_verifier block_import v.world in
      (answer r, record v { relay_chain_verifier = e'; world = w' })

  unfoldable pub verify : H.Request → Verifier → Produced H.Answer × Verifier
  unfolding with_verifier relay_verify
  verify block_import v =
      if has_aura H (H.parent_hash block_import)
      then with_verifier block_import v (get_mut turns v.aura_verifier v.world)
      else relay_verify block_import v

  -- The blocks that the import queue hands over, one after another.
  unfoldable pub verify_all : List H.Request → Verifier → List (Produced H.Answer) × Verifier
  verify_all [] v = ([], v)
  verify_all (b ∷ blocks) v =
      let (r, v') = verify b v in let (rs, v'') = verify_all blocks v' in (r ∷ rs, v'')
