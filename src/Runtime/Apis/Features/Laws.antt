-- ===== src/Runtime/Apis/Features/Laws.antt =====
-- The pallets that are benchmarked against those that have weight functions.
use parachain.Base.{◌≡◌, refl, sym, ◌↔◌, Bool, true, any, ◌==◌}
use parachain.Runtime.Pallets as Pallets
use parachain.Runtime.Pallets.{Pallet, index}
use parachain.Runtime.Apis.Features.{benchmarked}
use parachain.Weights.Functions as Functions
use parachain.Weights.Functions.{Function}
use parachain.Weights.System.Laws as System
use parachain.Weights.Balances.Laws as Balances
use parachain.Weights.Bounties.Laws as Bounties
use parachain.Weights.ChildBounties.Laws as ChildBounties
use parachain.Weights.Claims.Laws as Claims
use parachain.Weights.Collective.Laws as Collective
use parachain.Weights.Democracy.Laws as Democracy
use parachain.Weights.EnclaveBridge.Laws as EnclaveBridge
use parachain.Weights.Multisig.Laws as Multisig
use parachain.Weights.Preimage.Laws as Preimage
use parachain.Weights.Proxy.Laws as Proxy
use parachain.Weights.Scheduler.Laws as Scheduler
use parachain.Weights.Sidechain.Laws as Sidechain
use parachain.Weights.Teeracle.Laws as Teeracle
use parachain.Weights.Teerex.Laws as Teerex
use parachain.Weights.Timestamp.Laws as Timestamp
use parachain.Weights.Treasury.Laws as Treasury
use parachain.Weights.Utility.Laws as Utility
use parachain.Weights.Vesting.Laws as Vesting
use parachain.Weights.Xcm.Laws as Xcm

abbrev pub is_benchmarked : Pallet → Bool
unfolding index
is_benchmarked p = any (λ q. index q == index p) benchmarked

-- The pallet of a weight function; both collectives share their functions.
abbrev pub pallet_of : Function → Pallet
pallet_of (Functions.system c) = Pallets.system
pallet_of (Functions.balances c) = Pallets.balances
pallet_of (Functions.bounties c) = Pallets.bounties
pallet_of (Functions.child_bounties c) = Pallets.child_bounties
pallet_of (Functions.claims c) = Pallets.claims
pallet_of (Functions.collective c) = Pallets.council
pallet_of (Functions.democracy c) = Pallets.democracy
pallet_of (Functions.enclave_bridge c) = Pallets.enclave_bridge
pallet_of (Functions.multisig c) = Pallets.multisig
pallet_of (Functions.preimage c) = Pallets.preimage
pallet_of (Functions.proxy c) = Pallets.proxy
pallet_of (Functions.scheduler c) = Pallets.scheduler
pallet_of (Functions.sidechain c) = Pallets.sidechain
pallet_of (Functions.teeracle c) = Pallets.teeracle
pallet_of (Functions.teerex c) = Pallets.teerex
pallet_of (Functions.timestamp c) = Pallets.timestamp
pallet_of (Functions.treasury c) = Pallets.treasury
pallet_of (Functions.utility c) = Pallets.utility
pallet_of (Functions.vesting c) = Pallets.vesting
pallet_of (Functions.xcm c) = Pallets.polkadot_xcm

pallet_of-IsBenchmarked : (f : Function) → is_benchmarked (pallet_of f) ≡ true
unfolding index
pallet_of-IsBenchmarked (Functions.system c) = refl
pallet_of-IsBenchmarked (Functions.balances c) = refl
pallet_of-IsBenchmarked (Functions.bounties c) = refl
pallet_of-IsBenchmarked (Functions.child_bounties c) = refl
pallet_of-IsBenchmarked (Functions.claims c) = refl
pallet_of-IsBenchmarked (Functions.collective c) = refl
pallet_of-IsBenchmarked (Functions.democracy c) = refl
pallet_of-IsBenchmarked (Functions.enclave_bridge c) = refl
pallet_of-IsBenchmarked (Functions.multisig c) = refl
pallet_of-IsBenchmarked (Functions.preimage c) = refl
pallet_of-IsBenchmarked (Functions.proxy c) = refl
pallet_of-IsBenchmarked (Functions.scheduler c) = refl
pallet_of-IsBenchmarked (Functions.sidechain c) = refl
pallet_of-IsBenchmarked (Functions.teeracle c) = refl
pallet_of-IsBenchmarked (Functions.teerex c) = refl
pallet_of-IsBenchmarked (Functions.timestamp c) = refl
pallet_of-IsBenchmarked (Functions.treasury c) = refl
pallet_of-IsBenchmarked (Functions.utility c) = refl
pallet_of-IsBenchmarked (Functions.vesting c) = refl
pallet_of-IsBenchmarked (Functions.xcm c) = refl

function_of : (p : Pallet) → is_benchmarked p ≡ true → (f : Function) × (pallet_of f ≡ p)
unfolding index
function_of Pallets.system e = (Functions.system (System.remark 0), refl)
function_of Pallets.balances e = (Functions.balances Balances.transfer_allow_death, refl)
function_of Pallets.bounties e = (Functions.bounties (Bounties.propose_bounty 0), refl)
function_of Pallets.child_bounties e =
    (Functions.child_bounties (ChildBounties.add_child_bounty 0), refl)
function_of Pallets.claims e = (Functions.claims Claims.claim, refl)
function_of Pallets.council e = (Functions.collective (Collective.set_members 0 0 0), refl)
function_of Pallets.democracy e = (Functions.democracy Democracy.propose, refl)
function_of Pallets.enclave_bridge e = (Functions.enclave_bridge EnclaveBridge.invoke, refl)
function_of Pallets.multisig e = (Functions.multisig (Multisig.as_multi_threshold_1 0), refl)
function_of Pallets.preimage e = (Functions.preimage (Preimage.note_preimage 0), refl)
function_of Pallets.proxy e = (Functions.proxy (Proxy.proxy 0), refl)
function_of Pallets.scheduler e = (Functions.scheduler Scheduler.service_agendas_base, refl)
function_of Pallets.sidechain e =
    (Functions.sidechain Sidechain.confirm_imported_sidechain_block, refl)
function_of Pallets.teeracle e = (Functions.teeracle Teeracle.update_exchange_rate, refl)
function_of Pallets.teerex e = (Functions.teerex Teerex.register_sgx_enclave, refl)
function_of Pallets.timestamp e = (Functions.timestamp Timestamp.set, refl)
function_of Pallets.treasury e = (Functions.treasury Treasury.spend, refl)
function_of Pallets.utility e = (Functions.utility (Utility.batch 0), refl)
function_of Pallets.vesting e = (Functions.vesting (Vesting.vest_locked 0 0), refl)
function_of Pallets.polkadot_xcm e = (Functions.xcm Xcm.send, refl)
function_of p e = cc

-- The pallets that are benchmarked are exactly those that have a weight function of their own.
pub is_benchmarked_iff :
    (p : Pallet) → (is_benchmarked p ≡ true) ↔ ((f : Function) × (pallet_of f ≡ p))
is_benchmarked_iff p = (function_of p, λ (f, e). rw (sym e) (pallet_of-IsBenchmarked f))
