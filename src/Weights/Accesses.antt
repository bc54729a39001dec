-- ===== src/Weights/Accesses.antt =====
-- The documented accesses of all weight functions, and what they say of the weights.
pub mod Laws
use parachain.Base.{List, Bool}
use parachain.Weights.Storage.{Access}
use parachain.Weights.System.Storage as System
use parachain.Weights.Balances.Storage as Balances
use parachain.Weights.Bounties.Storage as Bounties
use parachain.Weights.ChildBounties.Storage as ChildBounties
use parachain.Weights.Claims.Storage as Claims
use parachain.Weights.Collective.Storage as Collective
use parachain.Weights.Democracy.Storage as Democracy
use parachain.Weights.EnclaveBridge.Storage as EnclaveBridge
use parachain.Weights.Multisig.Storage as Multisig
use parachain.Weights.Preimage.Storage as Preimage
use parachain.Weights.Proxy.Storage as Proxy
use parachain.Weights.Scheduler.Storage as Scheduler
use parachain.Weights.Sidechain.Storage as Sidechain
use parachain.Weights.Teeracle.Storage as Teeracle
use parachain.Weights.Teerex.Storage as Teerex
use parachain.Weights.Timestamp.Storage as Timestamp
use parachain.Weights.Treasury.Storage as Treasury
use parachain.Weights.Utility.Storage as Utility
use parachain.Weights.Vesting.Storage as Vesting
use parachain.Weights.Xcm.Storage as Xcm
use parachain.Weights.Functions.{
  Function, system, balances, bounties, child_bounties, claims, collective, democracy,
  enclave_bridge, multisig, preimage, proxy, scheduler, sidechain, teeracle, teerex, timestamp,
  treasury, utility, vesting, xcm,
}

abbrev pub accesses : Function → List Access
accesses (system c) = System.accesses c
accesses (balances c) = Balances.accesses c
accesses (bounties c) = Bounties.accesses c
accesses (child_bounties c) = ChildBounties.accesses c
accesses (claims c) = Claims.accesses c
accesses (collective c) = Collective.accesses c
accesses (democracy c) = Democracy.accesses c
accesses (enclave_bridge c) = EnclaveBridge.accesses c
accesses (multisig c) = Multisig.accesses c
accesses (preimage c) = Preimage.accesses c
accesses (proxy c) = Proxy.accesses c
accesses (scheduler c) = Scheduler.accesses c
accesses (sidechain c) = Sidechain.accesses c
accesses (teeracle c) = Teeracle.accesses c
accesses (teerex c) = Teerex.accesses c
accesses (timestamp c) = Timestamp.accesses c
accesses (treasury c) = Treasury.accesses c
accesses (utility c) = Utility.accesses c
accesses (vesting c) = Vesting.accesses c
accesses (xcm c) = Xcm.accesses c

abbrev pub IsAtTop : Function → Type 0
IsAtTop (system c) = System.IsAtTop c
IsAtTop (balances c) = Balances.IsAtTop c
IsAtTop (bounties c) = Bounties.IsAtTop c
IsAtTop (child_bounties c) = ChildBounties.IsAtTop c
IsAtTop (claims c) = Claims.IsAtTop c
IsAtTop (collective c) = Collective.IsAtTop c
IsAtTop (democracy c) = Democracy.IsAtTop c
IsAtTop (enclave_bridge c) = EnclaveBridge.IsAtTop c
IsAtTop (multisig c) = Multisig.IsAtTop c
IsAtTop (preimage c) = Preimage.IsAtTop c
IsAtTop (proxy c) = Proxy.IsAtTop c
IsAtTop (scheduler c) = Scheduler.IsAtTop c
IsAtTop (sidechain c) = Sidechain.IsAtTop c
IsAtTop (teeracle c) = Teeracle.IsAtTop c
IsAtTop (teerex c) = Teerex.IsAtTop c
IsAtTop (timestamp c) = Timestamp.IsAtTop c
IsAtTop (treasury c) = Treasury.IsAtTop c
IsAtTop (utility c) = Utility.IsAtTop c
IsAtTop (vesting c) = Vesting.IsAtTop c
IsAtTop (xcm c) = Xcm.IsAtTop c

abbrev pub is_fixed : Function → Bool
is_fixed (system c) = System.is_fixed c
is_fixed (balances c) = Balances.is_fixed c
is_fixed (bounties c) = Bounties.is_fixed c
is_fixed (child_bounties c) = ChildBounties.is_fixed c
is_fixed (claims c) = Claims.is_fixed c
is_fixed (collective c) = Collective.is_fixed c
is_fixed (democracy c) = Democracy.is_fixed c
is_fixed (enclave_bridge c) = EnclaveBridge.is_fixed c
is_fixed (multisig c) = Multisig.is_fixed c
is_fixed (preimage c) = Preimage.is_fixed c
is_fixed (proxy c) = Proxy.is_fixed c
is_fixed (scheduler c) = Scheduler.is_fixed c
is_fixed (sidechain c) = Sidechain.is_fixed c
is_fixed (teeracle c) = Teeracle.is_fixed c
is_fixed (teerex c) = Teerex.is_fixed c
is_fixed (timestamp c) = Timestamp.is_fixed c
is_fixed (treasury c) = Treasury.is_fixed c
is_fixed (utility c) = Utility.is_fixed c
is_fixed (vesting c) = Vesting.is_fixed c
is_fixed (xcm c) = Xcm.is_fixed c
