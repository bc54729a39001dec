-- ===== src/Weights/Functions/Laws.antt =====
-- What the weight functions charge, all together.
use parachain.Base.{ℕ, ◌+◌, ◌/◌, ◌≤◌, ◌<◌, ◌≡◌, ◌↔◌, true, false, inl, inr, Bool-cases, arith}
use parachain.Xcm.Barrier as XcmBarrier
use parachain.Runtime.BlockWeights.{
  maximum_block_weight, maximum_scheduler_weight, max_proposal_weight,
}
use parachain.Runtime.BlockWeights.Laws.{IsExact}
use parachain.Weights.Interface.{Weights, counting}
use parachain.Weights.Interface.Laws.{AreDocumented}
use parachain.Weights.System.Laws as System
use parachain.Weights.Balances.Laws as Balances
use parachain.Weights.Bounties.Laws as Bounties
use parachain.Weights.ChildBounties.Laws as ChildBounties
use parachain.Weights.Claims.Laws as Claims
use parachain.Weights.Collective.Laws as Collective
use parachain.Weights.Democracy.Laws as Democracy
use parachain.Weights.EnclaveBridge.Laws as EnclaveBridge
use parachain.Weights.Multisig.Laws as Multisig
use parachain.Weights.Preimage.Laws as Preimage
use parachain.Weights.Proxy.Laws as Proxy
use parachain.Weights.Scheduler.Laws as Scheduler
use parachain.Weights.Sidechain.Laws as Sidechain
use parachain.Weights.Teeracle.Laws as Teeracle
use parachain.Weights.Teerex.Laws as Teerex
use parachain.Weights.Timestamp.Laws as Timestamp
use parachain.Weights.Treasury.Laws as Treasury
use parachain.Weights.Utility.Laws as Utility
use parachain.Weights.Vesting.Laws as Vesting
use parachain.Weights.Xcm.Laws as Xcm
use parachain.Weights.Functions.{
  Function, system, balances, bounties, child_bounties, claims, collective, democracy,
  enclave_bridge, multisig, preimage, proxy, scheduler, sidechain, teeracle, teerex, timestamp,
  treasury, utility, vesting, xcm, weight, InRange, estimated, storage, overwritten, IsCounted,
  is_disabled, fetched_length,
}

half_has_room :
    {size room : ℕ} → size ≤ 2_621_440 → 2_621_440 ≤ room → (size ≤ room) ↔ (0 + 3_678 ≤ room)
half_has_room small r = (λ e. omega (arith, r), λ e. omega (arith, small, r))

-- A proof of the estimated size has room in a half of a block or more exactly if a call that is
-- fetched leaves 3678 bytes.
estimated_has_room_iff :
    (f : Function) {room : ℕ}
    → InRange f
    → 2_621_440 ≤ room
    → (estimated f ≤ room) ↔ (fetched_length f + 3_678 ≤ room)
estimated_has_room_iff (system c) h r = half_has_room (System.estimated-le c h) r
estimated_has_room_iff (balances c) h r = half_has_room (Balances.estimated-le c h) r
estimated_has_room_iff (bounties c) h r = half_has_room (Bounties.estimated-le c h) r
estimated_has_room_iff (child_bounties c) h r = half_has_room (ChildBounties.estimated-le c h) r
estimated_has_room_iff (claims c) h r = half_has_room (Claims.estimated-le c h) r
estimated_has_room_iff (collective c) h r = half_has_room (Collective.estimated-le c h) r
estimated_has_room_iff (democracy c) h r = half_has_room (Democracy.estimated-le c h) r
estimated_has_room_iff (enclave_bridge c) h r = half_has_room (EnclaveBridge.estimated-le c h) r
estimated_has_room_iff (multisig c) h r = half_has_room (Multisig.estimated-le c h) r
estimated_has_room_iff (preimage c) h r = half_has_room (Preimage.estimated-le c h) r
estimated_has_room_iff (proxy c) h r = half_has_room (Proxy.estimated-le c h) r
estimated_has_room_iff (scheduler c) h r = Scheduler.estimated_has_room_iff c h r
estimated_has_room_iff (sidechain c) h r = half_has_room (Sidechain.estimated-le c h) r
estimated_has_room_iff (teeracle c) h r = half_has_room (Teeracle.estimated-le c h) r
estimated_has_room_iff (teerex c) h r = half_has_room (Teerex.estimated-le c h) r
estimated_has_room_iff (timestamp c) h r = half_has_room (Timestamp.estimated-le c h) r
estimated_has_room_iff (treasury c) h r = half_has_room (Treasury.estimated-le c h) r
estimated_has_room_iff (utility c) h r = half_has_room (Utility.estimated-le c h) r
estimated_has_room_iff (vesting c) h r = half_has_room (Vesting.estimated-le c h) r
estimated_has_room_iff (xcm c) h r = half_has_room (Xcm.estimated-le c h) r

fetched_length-le : (f : Function) → InRange f → fetched_length f ≤ 4_194_304
fetched_length-le (scheduler c) h = Scheduler.fetched_length-le c h
fetched_length-le (system c) h = omega arith
fetched_length-le _ h = omega arith

nothing_more : {charged listed : ℕ × ℕ} → charged ≡ listed → charged ≡ (listed.0 + 0, listed.1 + 0)
nothing_more p = ground arith

-- At the component at which the accesses were counted, every weight function charges the reads and
-- writes that its source documents, and those of the keys that a call of `frame_system` overwrites.
pub weight-counting :
    (f : Function)
    → IsCounted f
    → weight counting f ≡ ((storage f).0 + (overwritten f).0, (storage f).1 + (overwritten f).1)
unfolding weight
weight-counting (system c) h = System.weight-counting c h
weight-counting (balances c) h = nothing_more (Balances.weight-counting c h)
weight-counting (bounties c) h = nothing_more (Bounties.weight-counting c h)
weight-counting (child_bounties c) h = nothing_more (ChildBounties.weight-counting c h)
weight-counting (claims c) h = nothing_more (Claims.weight-counting c h)
weight-counting (collective c) h = nothing_more (Collective.weight-counting c h)
weight-counting (democracy c) h = nothing_more (Democracy.weight-counting c h)
weight-counting (enclave_bridge c) h = nothing_more (EnclaveBridge.weight-counting c h)
weight-counting (multisig c) h = nothing_more (Multisig.weight-counting c h)
weight-counting (preimage c) h = nothing_more (Preimage.weight-counting c h)
weight-counting (proxy c) h = nothing_more (Proxy.weight-counting c h)
weight-counting (scheduler c) h = nothing_more (Scheduler.weight-counting c h)
weight-counting (sidechain c) h = nothing_more (Sidechain.weight-counting c h)
weight-counting (teeracle c) h = nothing_more (Teeracle.weight-counting c h)
weight-counting (teerex c) h = nothing_more (Teerex.weight-counting c h)
weight-counting (timestamp c) h = nothing_more (Timestamp.weight-counting c h)
weight-counting (treasury c) h = nothing_more (Treasury.weight-counting c h)
weight-counting (utility c) h = nothing_more (Utility.weight-counting c h)
weight-counting (vesting c) h = nothing_more (Vesting.weight-counting c h)
weight-counting (xcm c) h = nothing_more (Xcm.weight-counting c h)

module _ (W : Weights) (D : AreDocumented W) where
  -- For components in the documented ranges every weight function gives the proof size that its
  -- source documents as the estimate: no sum or multiple on the way saturates.
  pub proof_size-weight : (f : Function) → InRange f → W.proof_size (weight W f) ≡ estimated f
  unfolding weight
  proof_size-weight (system c) h = System.proof_size-weight W ⦃D = D⦄ c h
  proof_size-weight (balances c) h = Balances.proof_size-weight W ⦃D = D⦄ c h
  proof_size-weight (bounties c) h = Bounties.proof_size-weight W ⦃D = D⦄ c h
  proof_size-weight (child_bounties c) h = ChildBounties.proof_size-weight W ⦃D = D⦄ c h
  proof_size-weight (claims c) h = Claims.proof_size-weight W ⦃D = D⦄ c h
  proof_size-weight (collective c) h = Collective.proof_size-weight W ⦃D = D⦄ c h
  proof_size-weight (democracy c) h = Democracy.proof_size-weight W ⦃D = D⦄ c h
  proof_size-weight (enclave_bridge c) h = EnclaveBridge.proof_size-weight W ⦃D = D⦄ c h
  proof_size-weight (multisig c) h = Multisig.proof_size-weight W ⦃D = D⦄ c h
  proof_size-weight (preimage c) h = Preimage.proof_size-weight W ⦃D = D⦄ c h
  proof_size-weight (proxy c) h = Proxy.proof_size-weight W ⦃D = D⦄ c h
  proof_size-weight (scheduler c) h = Scheduler.proof_size-weight W ⦃D = D⦄ c h
  proof_size-weight (sidechain c) h = Sidechain.proof_size-weight W ⦃D = D⦄ c h
  proof_size-weight (teeracle c) h = Teeracle.proof_size-weight W ⦃D = D⦄ c h
  proof_size-weight (teerex c) h = Teerex.proof_size-weight W ⦃D = D⦄ c h
  proof_size-weight (timestamp c) h = Timestamp.proof_size-weight W ⦃D = D⦄ c h
  proof_size-weight (treasury c) h = Treasury.proof_size-weight W ⦃D = D⦄ c h
  proof_size-weight (utility c) h = Utility.proof_size-weight W ⦃D = D⦄ c h
  proof_size-weight (vesting c) h = Vesting.proof_size-weight W ⦃D = D⦄ c h
  proof_size-weight (xcm c) h = Xcm.proof_size-weight W ⦃D = D⦄ c h

  module _ (fast : D.read ≤ 25_000_000) (quick : D.write ≤ 100_000_000) where
    ref_time-weight-le :
        (f : Function)
        → InRange f
        → is_disabled f ≡ false
        → W.ref_time (weight W f) ≤ 250_000_000_000
    unfolding weight
    ref_time-weight-le (system c) h e = System.ref_time-weight-le W ⦃D = D⦄ fast quick c h
    ref_time-weight-le (balances c) h e = Balances.ref_time-weight-le W ⦃D = D⦄ fast quick c h
    ref_time-weight-le (bounties c) h e = Bounties.ref_time-weight-le W ⦃D = D⦄ fast quick c h
    ref_time-weight-le (child_bounties c) h e =
        ChildBounties.ref_time-weight-le W ⦃D = D⦄ fast quick c h
    ref_time-weight-le (claims c) h e = Claims.ref_time-weight-le W ⦃D = D⦄ fast quick c h
    ref_time-weight-le (collective c) h e = Collective.ref_time-weight-le W ⦃D = D⦄ fast quick c h
    ref_time-weight-le (democracy c) h e = Democracy.ref_time-weight-le W ⦃D = D⦄ fast quick c h
    ref_time-weight-le (enclave_bridge c) h e =
        EnclaveBridge.ref_time-weight-le W ⦃D = D⦄ fast quick c h
    ref_time-weight-le (multisig c) h e = Multisig.ref_time-weight-le W ⦃D = D⦄ fast quick c h
    ref_time-weight-le (preimage c) h e = Preimage.ref_time-weight-le W ⦃D = D⦄ fast quick c h
    ref_time-weight-le (proxy c) h e = Proxy.ref_time-weight-le W ⦃D = D⦄ fast quick c h
    ref_time-weight-le (scheduler c) h e = Scheduler.ref_time-weight-le W ⦃D = D⦄ fast quick c h
    ref_time-weight-le (sidechain c) h e = Sidechain.ref_time-weight-le W ⦃D = D⦄ fast quick c h
    ref_time-weight-le (teeracle c) h e = Teeracle.ref_time-weight-le W ⦃D = D⦄ fast quick c h
    ref_time-weight-le (teerex c) h e = Teerex.ref_time-weight-le W ⦃D = D⦄ fast quick c h
    ref_time-weight-le (timestamp c) h e = Timestamp.ref_time-weight-le W ⦃D = D⦄ fast quick c h
    ref_time-weight-le (treasury c) h e = Treasury.ref_time-weight-le W ⦃D = D⦄ fast quick c h
    ref_time-weight-le (utility c) h e = Utility.ref_time-weight-le W ⦃D = D⦄ fast quick c h
    ref_time-weight-le (vesting c) h e = Vesting.ref_time-weight-le W ⦃D = D⦄ fast quick c h
    ref_time-weight-le (xcm c) h e = Xcm.ref_time-weight-le W ⦃D = D⦄ fast quick c h e

  ref_time-weight_disabled :
      (f : Function) → is_disabled f ≡ true → 500_000_000_000 < W.ref_time (weight W f)
  unfolding weight
  ref_time-weight_disabled (system c) e = cc
  ref_time-weight_disabled (xcm c) e = Xcm.ref_time-weight_disabled W ⦃D = D⦄ c e
  ref_time-weight_disabled _ e = cc

  -- A weight that has room in a block of a maximal weight, in both parts.
  abbrev pub FitsInto : XcmBarrier.Weight → W.Weight → Type 0
  FitsInto whole w = (W.ref_time w ≤ whole.ref_time) × (W.proof_size w ≤ whole.proof_size)

  -- What decides whether a weight has room in half of a block or more.
  weight_has_room_iff :
      D.read ≤ 25_000_000
      → D.write ≤ 100_000_000
      → (f : Function) → InRange f
      → (whole : XcmBarrier.Weight) → 250_000_000_000 ≤ whole.ref_time
      → whole.ref_time ≤ 500_000_000_000
      → 2_621_440 ≤ whole.proof_size
      → FitsInto whole (weight W f)
        ↔ ((is_disabled f ≡ false) × (fetched_length f + 3_678 ≤ whole.proof_size))
  weight_has_room_iff fast quick f h whole half once room = elim (Bool-cases (is_disabled f)) [
    | inl off ↦
        (λ fits. absurd (omega (arith, ref_time-weight_disabled f off, fits.0, once)), λ on. cc)
    | inr on ↦
        let (few, many) = estimated_has_room_iff f h room in
        let size = proof_size-weight f h in
        (
          λ fits. (on, few (omega (arith, size, fits.1))),
          λ fits. (
            omega (arith, ref_time-weight-le fast quick f h on, half),
            omega (arith, size, many fits.1),
          ),
        )
  ]

  weight_fits_block_iff :
      {second pov : ℕ}
      → second ≡ 1_000_000_000_000
      → pov ≡ 5_242_880
      → D.read ≤ 25_000_000
      → D.write ≤ 100_000_000
      → (f : Function) → InRange f
      → FitsInto (maximum_block_weight second pov) (weight W f) ↔ (is_disabled f ≡ false)
  weight_fits_block_iff {second} {pov} s p fast quick f h =
      let (few, many) =
        weight_has_room_iff fast quick f h (maximum_block_weight second pov) (omega (arith, s))
          (omega (arith, s)) (omega (arith, p)) in
      (λ fits. (few fits).0, λ on. many (on, omega (arith, p, fetched_length-le f h)))

  -- For components in the documented ranges, reads and writes as fast as documented, and a `Perbill`
  -- that is exact where the product is whole: the weight of a function has room in an empty block, in
  -- the scheduler's agenda and in a collective's motion exactly if the function is neither
  -- `teleport_assets` nor `execute` of `pallet_xcm`, whose weight is set to nearly the whole of a `u64`,
  -- and the call that the scheduler's `service_task_fetched` fetches is of at most 4 190 626 bytes for
  -- the agenda, and of at most 2 617 762 for the motion.
  pub weight_fits_iff :
      {second pov : ℕ} (mul : ℕ → ℕ → ℕ)
      → IsExact mul
      → second ≡ 1_000_000_000_000
      → pov ≡ 5_242_880
      → D.read ≤ 25_000_000
      → D.write ≤ 100_000_000
      → (f : Function) → InRange f
      → (FitsInto (maximum_block_weight second pov) (weight W f) ↔ (is_disabled f ≡ false))
        × (FitsInto (maximum_scheduler_weight second pov mul) (weight W f)
            ↔ ((is_disabled f ≡ false) × (fetched_length f ≤ 4_190_626)))
        × (FitsInto (max_proposal_weight second pov mul) (weight W f)
            ↔ ((is_disabled f ≡ false) × (fetched_length f ≤ 2_617_762)))
  unfolding maximum_scheduler_weight max_proposal_weight
  weight_fits_iff {second} {pov} mul exact s p fast quick f h =
      let agenda_time = exact 800_000_000 (second / 2) 400_000_000_000 (omega (arith, s)) in
      let motion_time = exact 500_000_000 (second / 2) 250_000_000_000 (omega (arith, s)) in
      let agenda_size = exact 800_000_000 pov 4_194_304 (omega (arith, p)) in
      let motion_size = exact 500_000_000 pov 2_621_440 (omega (arith, p)) in
      let (few, many) =
        weight_has_room_iff fast quick f h (maximum_scheduler_weight second pov mul)
          (omega (arith, agenda_time)) (omega (arith, agenda_time)) (omega (arith, agenda_size)) in
      let (few', many') =
        weight_has_room_iff fast quick f h (max_proposal_weight second pov mul)
          (omega (arith, motion_time)) (omega (arith, motion_time)) (omega (arith, motion_size)) in
      (
        weight_fits_block_iff s p fast quick f h,
        (
          λ fits. ((few fits).0, omega (arith, (few fits).1, agenda_size)),
          λ (on, short). many (on, omega (arith, short, agenda_size)),
        ),
        (
          λ fits. ((few' fits).0, omega (arith, (few' fits).1, motion_size)),
          λ (on, short). many' (on, omega (arith, short, motion_size)),
        ),
      )
