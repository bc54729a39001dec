-- ===== src/Service/Lazy.antt =====
-- `BuildOnAccess` of polkadot-parachains/src/service.rs: a value that is built when it is first
-- asked for. A builder acts on the world and may panic, which is `none`.
pub mod Laws
use parachain.Base.{ℕ, zero, suc, Option, none, some}

abbrev pub Builder : Type 0 → Type 0 → Type 0
Builder World R = World → Option R × World

-- `Uninitialized(None)` is what `take` leaves behind while, and after, the builder runs.
pub data BuildOnAccess (World R : Type 0) : Type 0 where
  uninitialized : Option (World → Option R × World) → BuildOnAccess World R
  initialized : R → BuildOnAccess World R

-- How a call ends: with a value, in a panic, or, in the model only, with no fuel left.
pub data Access (R : Type 0) : Type 0 where
  value : R → Access R
  panicked : Access R
  no_fuel : Access R

-- One turn of the loop: it returns, or it has stored what the builder built. A builder that
-- panics leaves `Uninitialized(None)`, and so does not store anything.
pub data Turn (World R : Type 0) : Type 0 where
  finished : Access R → BuildOnAccess World R → World → Turn World R
  again : BuildOnAccess World R → World → Turn World R

module _ {World R : Type 0} where
  store_built : Option R × World → Turn World R
  store_built (some r, w) = again (initialized r) w
  store_built (none, w) = finished panicked (uninitialized none) w

  turn : BuildOnAccess World R → World → Turn World R
  unfolding store_built
  turn (uninitialized (some f)) w = store_built (f w)
  turn (uninitialized none) w = finished panicked (uninitialized none) w
  turn (initialized r) w = finished (value r) (initialized r) w

  -- The loop, with the turns left as fuel. The reference that it returns is the value and the cell
  -- that a caller writes back to.
  unfoldable pub get_mut :
      ℕ → BuildOnAccess World R → World → Access R × BuildOnAccess World R × World
  unfolding turn
  get_mut zero self w = (no_fuel, self, w)
  get_mut (suc fuel) self w = elim (turn self w) [
    | finished a self' w' ↦ (a, self', w')
    | again self' w' ↦ get_mut fuel self' w'
  ]

-- Two turns are enough: one that builds and one that returns.
abbrev pub turns : ℕ
turns = 2
