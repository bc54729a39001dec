-- ===== src/Xcm/Barrier.antt =====
-- `DenyThenTry` and `DenyReserveTransferToRelayChain` of
-- polkadot-parachains/common/src/xcm_config.rs.
pub mod Laws
use parachain.Base.{
  ℕ, Bool, true, false, ◌&&◌, ◌||◌, List, ◌++◌, [], ◌∷◌, Result, ok, err, any, ◌==◌, if◌then◌else◌,
}
use parachain.Xcm.Location.{Junctions, here, MultiLocation}

-- `Weight`
pub record Weight : Type 0 where
  pub ref_time : ℕ
  pub proof_size : ℕ

-- The errors that the source does not name are kept apart by a number.
pub data ProcessMessageError : Type 0 where
  unsupported : ProcessMessageError
  other_error : ℕ → ProcessMessageError

-- The four instructions that the barrier reads, with the field that it reads. `Rest` holds what
-- the source never looks at: the `..` of a pattern, and all of any other instruction.
pub data Instruction (Rest : Type 0) : Type 0 where
  initiate_reserve_withdraw : MultiLocation → Rest → Instruction Rest
  deposit_reserve_asset : MultiLocation → Rest → Instruction Rest
  transfer_reserve_asset : MultiLocation → Rest → Instruction Rest
  reserve_asset_deposited : Rest → Instruction Rest
  other_instruction : Rest → Instruction Rest

-- What a barrier can write: the message and the weight credit that it borrows mutably, and the log.
pub data Warning : Type 0 where
  unexpected_reserve_asset_deposited : Warning
  other_warning : ℕ → Warning

pub record Borrowed (Rest : Type 0) : Type 0 where
  pub message : List (Instruction Rest)
  pub weight_credit : Weight
  pub log : List Warning

-- The trait `ShouldExecute`: origin, the borrowed state, and the maximal weight.
abbrev pub ShouldExecute : Type 0 → Type 0
ShouldExecute Rest =
    MultiLocation → Weight → Borrowed Rest → Result ProcessMessageError (Unit {0}) × Borrowed Rest

-- `MultiLocation { parents: 1, interior: Here }` as a pattern.
is_here : Junctions → Bool
is_here here = true
is_here _ = false

unfoldable pub is_relay_chain : MultiLocation → Bool
unfolding is_here
is_relay_chain l = l.parents == 1 && is_here l.interior

module _ {Rest : Type 0} where
  -- The `?` on the first barrier's result, and the call of the second.
  proceed :
      ShouldExecute Rest
      → MultiLocation
      → Weight
      → Result ProcessMessageError (Unit {0}) × Borrowed Rest
      → Result ProcessMessageError (Unit {0}) × Borrowed Rest
  proceed allow origin max_weight (ok _, s) = allow origin max_weight s
  proceed allow origin max_weight (err e, s) = (err e, s)

  unfoldable pub deny_then_try : ShouldExecute Rest → ShouldExecute Rest → ShouldExecute Rest
  unfolding proceed
  deny_then_try deny allow origin max_weight s =
      proceed allow origin max_weight (deny origin max_weight s)

  unfoldable pub sends_reserve_to_relay : Instruction Rest → Bool
  unfolding is_relay_chain
  sends_reserve_to_relay (initiate_reserve_withdraw reserve _) = is_relay_chain reserve
  sends_reserve_to_relay (deposit_reserve_asset dest _) = is_relay_chain dest
  sends_reserve_to_relay (transfer_reserve_asset dest _) = is_relay_chain dest
  sends_reserve_to_relay _ = false

  unfoldable pub is_reserve_asset_deposited : Instruction Rest → Bool
  is_reserve_asset_deposited (reserve_asset_deposited _) = true
  is_reserve_asset_deposited _ = false

  unfoldable pub deny_reserve_transfer_to_relay_chain : ShouldExecute Rest
  unfolding sends_reserve_to_relay is_reserve_asset_deposited is_relay_chain
  deny_reserve_transfer_to_relay_chain origin max_weight s =
      if any sends_reserve_to_relay s.message
      then (err unsupported, s)
      else if is_relay_chain origin && any is_reserve_asset_deposited s.message
      then (ok tt, record s { log = s.log ++ (unexpected_reserve_asset_deposited ∷ []) })
      else (ok tt, s)
