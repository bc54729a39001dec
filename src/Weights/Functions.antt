-- ===== src/Weights/Functions.antt =====
-- All weight functions of polkadot-parachains/integritee-runtime/src/weights as one type, with
-- what their sources document of each.
pub mod Laws
use parachain.Base.{ℕ, Bool, false}
use parachain.Weights.Interface.{Weights}
use parachain.Weights.System.Laws as System
use parachain.Weights.Balances.Laws as Balances
use parachain.Weights.Bounties.Laws as Bounties
use parachain.Weights.ChildBounties.Laws as ChildBounties
use parachain.Weights.Claims.Laws as Claims
use parachain.Weights.Collective.Laws as Collective
use parachain.Weights.Democracy.Laws as Democracy
use parachain.Weights.EnclaveBridge.Laws as EnclaveBridge
use parachain.Weights.Multisig.Laws as Multisig
use parachain.Weights.Preimage.Laws as Preimage
use parachain.Weights.Proxy.Laws as Proxy
use parachain.Weights.Scheduler.Laws as Scheduler
use parachain.Weights.Sidechain.Laws as Sidechain
use parachain.Weights.Teeracle.Laws as Teeracle
use parachain.Weights.Teerex.Laws as Teerex
use parachain.Weights.Timestamp.Laws as Timestamp
use parachain.Weights.Treasury.Laws as Treasury
use parachain.Weights.Utility.Laws as Utility
use parachain.Weights.Vesting.Laws as Vesting
use parachain.Weights.Xcm.Laws as Xcm

pub data Function : Type 0 where
  system : System.Call → Function
  balances : Balances.Call → Function
  bounties : Bounties.Call → Function
  child_bounties : ChildBounties.Call → Function
  claims : Claims.Call → Function
  collective : Collective.Call → Function
  democracy : Democracy.Call → Function
  enclave_bridge : EnclaveBridge.Call → Function
  multisig : Multisig.Call → Function
  preimage : Preimage.Call → Function
  proxy : Proxy.Call → Function
  scheduler : Scheduler.Call → Function
  sidechain : Sidechain.Call → Function
  teeracle : Teeracle.Call → Function
  teerex : Teerex.Call → Function
  timestamp : Timestamp.Call → Function
  treasury : Treasury.Call → Function
  utility : Utility.Call → Function
  vesting : Vesting.Call → Function
  xcm : Xcm.Call → Function

unfoldable pub weight : (W : Weights) → Function → W.Weight
weight W (system c) = System.weight W c
weight W (balances c) = Balances.weight W c
weight W (bounties c) = Bounties.weight W c
weight W (child_bounties c) = ChildBounties.weight W c
weight W (claims c) = Claims.weight W c
weight W (collective c) = Collective.weight W c
weight W (democracy c) = Democracy.weight W c
weight W (enclave_bridge c) = EnclaveBridge.weight W c
weight W (multisig c) = Multisig.weight W c
weight W (preimage c) = Preimage.weight W c
weight W (proxy c) = Proxy.weight W c
weight W (scheduler c) = Scheduler.weight W c
weight W (sidechain c) = Sidechain.weight W c
weight W (teeracle c) = Teeracle.weight W c
weight W (teerex c) = Teerex.weight W c
weight W (timestamp c) = Timestamp.weight W c
weight W (treasury c) = Treasury.weight W c
weight W (utility c) = Utility.weight W c
weight W (vesting c) = Vesting.weight W c
weight W (xcm c) = Xcm.weight W c

abbrev pub InRange : Function → Type 0
InRange (system c) = System.InRange c
InRange (balances c) = Balances.InRange c
InRange (bounties c) = Bounties.InRange c
InRange (child_bounties c) = ChildBounties.InRange c
InRange (claims c) = Claims.InRange c
InRange (collective c) = Collective.InRange c
InRange (democracy c) = Democracy.InRange c
InRange (enclave_bridge c) = EnclaveBridge.InRange c
InRange (multisig c) = Multisig.InRange c
InRange (preimage c) = Preimage.InRange c
InRange (proxy c) = Proxy.InRange c
InRange (scheduler c) = Scheduler.InRange c
InRange (sidechain c) = Sidechain.InRange c
InRange (teeracle c) = Teeracle.InRange c
InRange (teerex c) = Teerex.InRange c
InRange (timestamp c) = Timestamp.InRange c
InRange (treasury c) = Treasury.InRange c
InRange (utility c) = Utility.InRange c
InRange (vesting c) = Vesting.InRange c
InRange (xcm c) = Xcm.InRange c

abbrev pub estimated : Function → ℕ
estimated (system c) = System.estimated c
estimated (balances c) = Balances.estimated c
estimated (bounties c) = Bounties.estimated c
estimated (child_bounties c) = ChildBounties.estimated c
estimated (claims c) = Claims.estimated c
estimated (collective c) = Collective.estimated c
estimated (democracy c) = Democracy.estimated c
estimated (enclave_bridge c) = EnclaveBridge.estimated c
estimated (multisig c) = Multisig.estimated c
estimated (preimage c) = Preimage.estimated c
estimated (proxy c) = Proxy.estimated c
estimated (scheduler c) = Scheduler.estimated c
estimated (sidechain c) = Sidechain.estimated c
estimated (teeracle c) = Teeracle.estimated c
estimated (teerex c) = Teerex.estimated c
estimated (timestamp c) = Timestamp.estimated c
estimated (treasury c) = Treasury.estimated c
estimated (utility c) = Utility.estimated c
estimated (vesting c) = Vesting.estimated c
estimated (xcm c) = Xcm.estimated c

abbrev pub storage : Function → ℕ × ℕ
storage (system c) = System.storage c
storage (balances c) = Balances.storage c
storage (bounties c) = Bounties.storage c
storage (child_bounties c) = ChildBounties.storage c
storage (claims c) = Claims.storage c
storage (collective c) = Collective.storage c
storage (democracy c) = Democracy.storage c
storage (enclave_bridge c) = EnclaveBridge.storage c
storage (multisig c) = Multisig.storage c
storage (preimage c) = Preimage.storage c
storage (proxy c) = Proxy.storage c
storage (scheduler c) = Scheduler.storage c
storage (sidechain c) = Sidechain.storage c
storage (teeracle c) = Teeracle.storage c
storage (teerex c) = Teerex.storage c
storage (timestamp c) = Timestamp.storage c
storage (treasury c) = Treasury.storage c
storage (utility c) = Utility.storage c
storage (vesting c) = Vesting.storage c
storage (xcm c) = Xcm.storage c

-- The reads and writes of the keys that a call overwrites, which are no item of the source's list.
abbrev pub overwritten : Function → ℕ × ℕ
overwritten (system c) = System.overwritten c
overwritten _ = (0, 0)

abbrev pub IsCounted : Function → Type 0
IsCounted (system c) = System.IsCounted c
IsCounted (balances c) = Balances.IsCounted c
IsCounted (bounties c) = Bounties.IsCounted c
IsCounted (child_bounties c) = ChildBounties.IsCounted c
IsCounted (claims c) = Claims.IsCounted c
IsCounted (collective c) = Collective.IsCounted c
IsCounted (democracy c) = Democracy.IsCounted c
IsCounted (enclave_bridge c) = EnclaveBridge.IsCounted c
IsCounted (multisig c) = Multisig.IsCounted c
IsCounted (preimage c) = Preimage.IsCounted c
IsCounted (proxy c) = Proxy.IsCounted c
IsCounted (scheduler c) = Scheduler.IsCounted c
IsCounted (sidechain c) = Sidechain.IsCounted c
IsCounted (teeracle c) = Teeracle.IsCounted c
IsCounted (teerex c) = Teerex.IsCounted c
IsCounted (timestamp c) = Timestamp.IsCounted c
IsCounted (treasury c) = Treasury.IsCounted c
IsCounted (utility c) = Utility.IsCounted c
IsCounted (vesting c) = Vesting.IsCounted c
IsCounted (xcm c) = Xcm.IsCounted c

-- The two functions of `pallet_xcm` whose weight is set to nearly the whole of a `u64`.
abbrev pub is_disabled : Function → Bool
is_disabled (xcm c) = Xcm.is_disabled c
is_disabled _ = false

-- The length of the call that the scheduler's `service_task_fetched` fetches, and 0 for all others.
abbrev pub fetched_length : Function → ℕ
fetched_length (scheduler c) = Scheduler.fetched_length c
fetched_length _ = 0
