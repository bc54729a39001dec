-- ===== src/Xcm/Location.antt =====
-- The part of the `xcm` crate's locations and assets that the configuration names. Junctions,
-- networks and asset classes that the sources never name are kept apart by their encoding, read as
-- one number.
use parachain.Base.{ℕ, List, Option, ℕ_discrete}

pub data NetworkId : Type 0 where
  kusama : NetworkId
  other_network : ℕ → NetworkId

-- `GeneralKey { length, data }` holds 32 bytes of data.
pub data Junction : Type 0 where
  para_chain : ℕ → Junction
  general_key : ℕ → List ℕ → Junction
  account_id32 : Option NetworkId → List ℕ → Junction
  global_consensus : NetworkId → Junction
  other_junction : ℕ → Junction

-- `deeper` stands for `X3` to `X8`.
pub data Junctions : Type 0 where
  here : Junctions
  x1 : Junction → Junctions
  x2 : Junction → Junction → Junctions
  deeper : Junction → Junction → Junction → List Junction → Junctions

pub record MultiLocation : Type 0 where
  pub parents : ℕ
  pub interior : Junctions

pub data AssetId : Type 0 where
  concrete : MultiLocation → AssetId
  abstract_id : List ℕ → AssetId

-- `fun` is not read by the configuration.
pub record MultiAsset : Type 0 where
  pub id : AssetId
  pub fun_code : ℕ

unfoldable pub NetworkId-discrete : Discrete NetworkId
NetworkId-discrete = hlevel ℕ_discrete

unfoldable pub Junction-discrete : Discrete Junction
Junction-discrete = hlevel ℕ_discrete

unfoldable pub Junctions-discrete : Discrete Junctions
Junctions-discrete = hlevel (ℕ_discrete, Junction-discrete)

unfoldable pub MultiLocation-discrete : Discrete MultiLocation
MultiLocation-discrete = hlevel (ℕ_discrete, Junctions-discrete)

-- `MultiLocation::here()` and `MultiLocation::parent()`
abbrev pub here_location : MultiLocation
here_location = record { parents = 0; interior = here }

abbrev pub parent_location : MultiLocation
parent_location = record { parents = 1; interior = here }
