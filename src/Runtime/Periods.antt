-- ===== src/Runtime/Periods.antt =====
-- Time: the block time of polkadot-parachains/common/src/lib.rs, `prod_or_fast!` of
-- polkadot-parachains/integritee-runtime/src/helpers.rs, and the periods of
-- polkadot-parachains/integritee-runtime/src/lib.rs, in blocks (`u32`).
pub mod Laws
use parachain.Base.{ℕ, ◌*◌, ◌/◌, Bool, if◌then◌else◌}

abbrev pub millisecs_per_block : ℕ
millisecs_per_block = 12000

abbrev pub slot_duration : ℕ
slot_duration = millisecs_per_block

abbrev pub minutes : ℕ
minutes = 60_000 / millisecs_per_block

abbrev pub hours : ℕ
hours = minutes * 60

abbrev pub days : ℕ
days = hours * 24

-- `pallet_timestamp`'s `MinimumPeriod`
abbrev pub minimum_period : ℕ
minimum_period = slot_duration / 2

-- The flag is the feature `fast-runtime`.
abbrev pub prod_or_fast : Bool → ℕ → ℕ → ℕ
prod_or_fast fast_runtime prod test = if fast_runtime then test else prod

-- The periods that the pallets are configured with, in both builds.
abbrev pub spend_period : Bool → ℕ
spend_period fast = prod_or_fast fast (6 * days) (6 * minutes)

abbrev pub bounty_deposit_payout_delay : Bool → ℕ
bounty_deposit_payout_delay fast = prod_or_fast fast (4 * days) (4 * minutes)

abbrev pub bounty_update_period : Bool → ℕ
bounty_update_period fast = prod_or_fast fast (90 * days) (15 * minutes)

abbrev pub council_motion_duration : Bool → ℕ
council_motion_duration fast = prod_or_fast fast (3 * days) (2 * minutes)

abbrev pub technical_motion_duration : Bool → ℕ
technical_motion_duration fast = prod_or_fast fast (3 * days) (2 * minutes)

abbrev pub launch_period : Bool → ℕ
launch_period fast = prod_or_fast fast (5 * days) (5 * minutes)

abbrev pub voting_period : Bool → ℕ
voting_period fast = prod_or_fast fast (5 * days) (5 * minutes)

abbrev pub fast_track_voting_period : Bool → ℕ
fast_track_voting_period fast = prod_or_fast fast (3 * hours) (2 * minutes)

abbrev pub enactment_period : Bool → ℕ
enactment_period fast = prod_or_fast fast (2 * days) 1

abbrev pub cooloff_period : Bool → ℕ
cooloff_period fast = prod_or_fast fast (7 * days) (1 * minutes)

-- All of them.
pub data Period : Type 0 where
  spend bounty_payout bounty_update council_motion technical_motion : Period
  launch voting fast_track_voting enactment cooloff : Period

unfoldable pub period : Bool → Period → ℕ
period fast spend = spend_period fast
period fast bounty_payout = bounty_deposit_payout_delay fast
period fast bounty_update = bounty_update_period fast
period fast council_motion = council_motion_duration fast
period fast technical_motion = technical_motion_duration fast
period fast launch = launch_period fast
period fast voting = voting_period fast
period fast fast_track_voting = fast_track_voting_period fast
period fast enactment = enactment_period fast
period fast cooloff = cooloff_period fast
