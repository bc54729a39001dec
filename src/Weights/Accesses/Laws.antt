-- ===== src/Weights/Accesses/Laws.antt =====
-- What the weight functions charge, against the accesses that are documented.
use parachain.Base.{◌+◌, ◌≤◌, ◌<◌, ◌≡◌, sym, ◌∙◌, true, List, [], ◌∷◌, arith}
use mathlib.Core.List.{Memᴰ}
use parachain.Weights.Interface.{Weights, counting}
use parachain.Weights.Interface.Laws.{AreDocumented}
use parachain.Weights.Storage.{Access, reads_of, added_by, total, greatest, is_bounded, proof_of}
use parachain.Weights.System.Storage as System
use parachain.Weights.Balances.Storage as Balances
use parachain.Weights.Bounties.Storage as Bounties
use parachain.Weights.ChildBounties.Storage as ChildBounties
use parachain.Weights.Claims.Storage as Claims
use parachain.Weights.Collective.Storage as Collective
use parachain.Weights.Democracy.Storage as Democracy
use parachain.Weights.EnclaveBridge.Storage as EnclaveBridge
use parachain.Weights.Multisig.Storage as Multisig
use parachain.Weights.Preimage.Storage as Preimage
use parachain.Weights.Proxy.Storage as Proxy
use parachain.Weights.Scheduler.Storage as Scheduler
use parachain.Weights.Sidechain.Storage as Sidechain
use parachain.Weights.Teeracle.Storage as Teeracle
use parachain.Weights.Teerex.Storage as Teerex
use parachain.Weights.Timestamp.Storage as Timestamp
use parachain.Weights.Treasury.Storage as Treasury
use parachain.Weights.Utility.Storage as Utility
use parachain.Weights.Vesting.Storage as Vesting
use parachain.Weights.Xcm.Storage as Xcm
use parachain.Weights.Functions.{
  Function, system, balances, bounties, child_bounties, claims, collective, democracy,
  enclave_bridge, multisig, preimage, proxy, scheduler, sidechain, teeracle, teerex, timestamp,
  treasury, utility, vesting, xcm, weight, InRange, IsCounted, estimated, storage, overwritten,
}
use parachain.Weights.Functions.Laws.{weight-counting, proof_size-weight}
use parachain.Weights.Accesses.{accesses, IsAtTop, is_fixed}

total-accesses : (f : Function) → total (accesses f) ≡ storage f
total-accesses (system c) = System.total-accesses c
total-accesses (balances c) = Balances.total-accesses c
total-accesses (bounties c) = Bounties.total-accesses c
total-accesses (child_bounties c) = ChildBounties.total-accesses c
total-accesses (claims c) = Claims.total-accesses c
total-accesses (collective c) = Collective.total-accesses c
total-accesses (democracy c) = Democracy.total-accesses c
total-accesses (enclave_bridge c) = EnclaveBridge.total-accesses c
total-accesses (multisig c) = Multisig.total-accesses c
total-accesses (preimage c) = Preimage.total-accesses c
total-accesses (proxy c) = Proxy.total-accesses c
total-accesses (scheduler c) = Scheduler.total-accesses c
total-accesses (sidechain c) = Sidechain.total-accesses c
total-accesses (teeracle c) = Teeracle.total-accesses c
total-accesses (teerex c) = Teerex.total-accesses c
total-accesses (timestamp c) = Timestamp.total-accesses c
total-accesses (treasury c) = Treasury.total-accesses c
total-accesses (utility c) = Utility.total-accesses c
total-accesses (vesting c) = Vesting.total-accesses c
total-accesses (xcm c) = Xcm.total-accesses c

-- At the component at which the accesses were counted, where they depend on one, every weight function
-- charges as many reads and as many writes as the documented accesses add up to, and besides, for
-- components in the documented ranges, the three that overwrite raw storage charge a write for each
-- key (`kill_prefix` a read also), of which their sources document none.
pub weight-accesses :
    (f : Function)
    → IsCounted f
    → weight counting f
      ≡ ((total (accesses f)).0 + (overwritten f).0, (total (accesses f)).1 + (overwritten f).1)
weight-accesses f h = rw (total-accesses f) (weight-counting f h)

proof_of-accesses-le :
    (f : Function)
    → is_bounded (accesses f) ≡ true
    → IsAtTop f
    → proof_of (accesses f) ≤ estimated f
proof_of-accesses-le (system c) b h = System.proof_of-accesses-le c b h
proof_of-accesses-le (balances c) b h = Balances.proof_of-accesses-le c b h
proof_of-accesses-le (bounties c) b h = Bounties.proof_of-accesses-le c b h
proof_of-accesses-le (child_bounties c) b h = ChildBounties.proof_of-accesses-le c b h
proof_of-accesses-le (claims c) b h = Claims.proof_of-accesses-le c b h
proof_of-accesses-le (collective c) b h = Collective.proof_of-accesses-le c b h
proof_of-accesses-le (democracy c) b h = Democracy.proof_of-accesses-le c b h
proof_of-accesses-le (enclave_bridge c) b h = EnclaveBridge.proof_of-accesses-le c b h
proof_of-accesses-le (multisig c) b h = Multisig.proof_of-accesses-le c b h
proof_of-accesses-le (preimage c) b h = Preimage.proof_of-accesses-le c b h
proof_of-accesses-le (proxy c) b h = Proxy.proof_of-accesses-le c b h
proof_of-accesses-le (scheduler c) b h = Scheduler.proof_of-accesses-le c b h
proof_of-accesses-le (sidechain c) b h = Sidechain.proof_of-accesses-le c b h
proof_of-accesses-le (teeracle c) b h = Teeracle.proof_of-accesses-le c b h
proof_of-accesses-le (teerex c) b h = Teerex.proof_of-accesses-le c b h
proof_of-accesses-le (timestamp c) b h = Timestamp.proof_of-accesses-le c b h
proof_of-accesses-le (treasury c) b h = Treasury.proof_of-accesses-le c b h
proof_of-accesses-le (utility c) b h = Utility.proof_of-accesses-le c b h
proof_of-accesses-le (vesting c) b h = Vesting.proof_of-accesses-le c b h
proof_of-accesses-le (xcm c) b h = Xcm.proof_of-accesses-le c b h

proof_of-accesses :
    (f : Function)
    → is_bounded (accesses f) ≡ true
    → is_fixed f ≡ true
    → proof_of (accesses f) ≡ estimated f
proof_of-accesses (system c) b e = System.proof_of-accesses c b e
proof_of-accesses (balances c) b e = Balances.proof_of-accesses c b e
proof_of-accesses (bounties c) b e = Bounties.proof_of-accesses c b e
proof_of-accesses (child_bounties c) b e = ChildBounties.proof_of-accesses c b e
proof_of-accesses (claims c) b e = Claims.proof_of-accesses c b e
proof_of-accesses (collective c) b e = Collective.proof_of-accesses c b e
proof_of-accesses (democracy c) b e = Democracy.proof_of-accesses c b e
proof_of-accesses (enclave_bridge c) b e = EnclaveBridge.proof_of-accesses c b e
proof_of-accesses (multisig c) b e = Multisig.proof_of-accesses c b e
proof_of-accesses (preimage c) b e = Preimage.proof_of-accesses c b e
proof_of-accesses (proxy c) b e = Proxy.proof_of-accesses c b e
proof_of-accesses (scheduler c) b e = Scheduler.proof_of-accesses c b e
proof_of-accesses (sidechain c) b e = Sidechain.proof_of-accesses c b e
proof_of-accesses (teeracle c) b e = Teeracle.proof_of-accesses c b e
proof_of-accesses (teerex c) b e = Teerex.proof_of-accesses c b e
proof_of-accesses (timestamp c) b e = Timestamp.proof_of-accesses c b e
proof_of-accesses (treasury c) b e = Treasury.proof_of-accesses c b e
proof_of-accesses (utility c) b e = Utility.proof_of-accesses c b e
proof_of-accesses (vesting c) b e = Vesting.proof_of-accesses c b e
proof_of-accesses (xcm c) b e = Xcm.proof_of-accesses c b e

-- An item that is read adds no more than what the list does.
added_by-le-proof_of :
    (l : List Access) (a : Access)
    → Memᴰ a l
    → 0 < reads_of a
    → (0 < (total l).0) × (added_by a ≤ greatest l)
added_by-le-proof_of [] a m h = elim m [ ]
added_by-le-proof_of (b ∷ l) a (Memᴰ.head e) h = ground arith
added_by-le-proof_of (b ∷ l) a (Memᴰ.tail m) h =
    let (some_read, le) = added_by-le-proof_of l a m h in ground arith

module _ (W : Weights) (D : AreDocumented W) where
  -- Where every item that a function is documented to access has a bound, and the components are those
  -- at which the accesses were counted: the proof size that is charged is never less than 990 bytes
  -- and what the reads of any one item add, for each of the items that are read.
  pub proof_size-accesses :
      (f : Function)
      → InRange f
      → is_bounded (accesses f) ≡ true
      → IsAtTop f
      → (a : Access) → Memᴰ a (accesses f)
      → 0 < reads_of a
      → 990 + added_by a ≤ W.proof_size (weight W f)
  proof_size-accesses f range b top a m read =
      let (some_read, le) = added_by-le-proof_of (accesses f) a m read in
      let all = proof_of-accesses-le f b top in rw (proof_size-weight W D f range) (ground arith)

  -- Where every item has a bound and the documented estimate does not depend on a component: the
  -- proof size that is charged is nothing if no item is read, and 990 bytes and what the reads of the
  -- item that adds most add otherwise.
  pub proof_size-accesses_fixed :
      (f : Function)
      → InRange f
      → is_bounded (accesses f) ≡ true
      → is_fixed f ≡ true
      → W.proof_size (weight W f) ≡ proof_of (accesses f)
  proof_size-accesses_fixed f range b fixed =
      proof_size-weight W D f range ∙ sym (proof_of-accesses f b fixed)
