-- ===== src/Xcm/RuntimeBarrier.antt =====
-- `Barrier` of polkadot-parachains/integritee-runtime/src/xcm_config.rs and of the shell's copy: the
-- barrier of the common crate before four of the `xcm-builder` crate. These four, and the trying of a
-- tuple in turn, are outside the repository, hence parameters.
pub mod Laws
use parachain.Base.{Bool, true, List, [], ◌∷◌}
use parachain.Xcm.Location.{MultiLocation}
use parachain.Xcm.Barrier.{ShouldExecute, deny_then_try, deny_reserve_transfer_to_relay_chain}

-- The filter `Everything`.
abbrev pub everything : MultiLocation → Bool
everything origin = true

pub record Allowing (Rest : Type 0) : Type 0 where
  pub take_weight_credit : ShouldExecute Rest
  pub allow_top_level_paid_execution_from : (MultiLocation → Bool) → ShouldExecute Rest
  pub allow_known_query_responses : ShouldExecute Rest
  pub allow_subscriptions_from : (MultiLocation → Bool) → ShouldExecute Rest
  pub first_allowing : List (ShouldExecute Rest) → ShouldExecute Rest

module _ {Rest : Type 0} (A : Allowing Rest) where
  unfoldable pub barrier : ShouldExecute Rest
  barrier = deny_then_try deny_reserve_transfer_to_relay_chain (
      A.first_allowing (
        A.take_weight_credit
        ∷ A.allow_top_level_paid_execution_from everything
        ∷ A.allow_known_query_responses
        ∷ A.allow_subscriptions_from everything
        ∷ []))

  unfoldable pub shell_barrier : ShouldExecute Rest
  shell_barrier = deny_then_try deny_reserve_transfer_to_relay_chain (
      A.first_allowing (
        A.take_weight_credit
        ∷ A.allow_top_level_paid_execution_from everything
        ∷ A.allow_known_query_responses
        ∷ A.allow_subscriptions_from everything
        ∷ []))
