-- ===== src/Runtime/Periods/Laws.antt =====
-- Orders between the periods, in both builds of the runtime.
use parachain.Base.{◌^◌, ◌≤◌, ◌<◌, ◌≡◌, Bool, true, false, arith}
use parachain.Runtime.Periods.{
  Period, launch, voting, fast_track_voting, enactment, council_motion, period,
}

-- In both builds no period is 0, which the treasury would divide by, and each is a `u32`; the fast
-- build never waits longer than the other.
pub period_bounds :
    (fast : Bool) (p : Period)
    → (0 < period fast p) × (period fast p < 2 ^ 32) × (period true p ≤ period false p)
unfolding period
period_bounds true p = ground arith
period_bounds false p = ground arith

-- In both builds the fast track's vote is shorter than an ordinary one, an approved proposal is
-- enacted no later than a further vote would end, and a motion of the council ends before the vote
-- that it can lead to.
pub period_order :
    (fast : Bool)
    → (period fast fast_track_voting < period fast voting)
      × (period fast enactment < period fast voting)
      × (period fast council_motion < period fast voting)
      × (period fast launch ≡ period fast voting)
unfolding period
period_order true = omega arith
period_order false = omega arith
