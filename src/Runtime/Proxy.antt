-- ===== src/Runtime/Proxy.antt =====
-- `ProxyType` and its `InstanceFilter` (polkadot-parachains/integritee-runtime/src/lib.rs).
-- The calls of a pallet that a filter does not name are kept apart by their encoding, read as one number.
pub mod Laws
use parachain.Base.{ℕ, Bool, true, false, ◌||◌, holds}

-- `pallet_proxy::Call`
pub data ProxyCall : Type 0 where
  reject_announcement : ℕ → ProxyCall
  other_proxy_call : ℕ → ProxyCall

-- `RuntimeCall`: a constructor for each pallet of `construct_runtime!` that has calls.
pub data RuntimeCall : Type 0 where
  system parachain_system timestamp preimage multisig scheduler utility : ℕ → RuntimeCall
  proxy : ProxyCall → RuntimeCall
  balances vesting : ℕ → RuntimeCall
  treasury democracy council technical_committee bounties child_bounties : ℕ → RuntimeCall
  xcmp_queue polkadot_xcm cumulus_xcm dmp_queue x_tokens orml_xcm : ℕ → RuntimeCall
  xcm_transactor : ℕ → RuntimeCall
  teerex claims teeracle sidechain enclave_bridge : ℕ → RuntimeCall

pub data ProxyType : Type 0 where
  any_call non_transfer governance cancel_proxy : ProxyType

unfoldable pub ProxyType-discrete : Discrete ProxyType
ProxyType-discrete = hlevel

-- `Default`
pub default : ProxyType
default = any_call

non_transfer_filter : RuntimeCall → Bool
non_transfer_filter (system _) = true
non_transfer_filter (timestamp _) = true
non_transfer_filter (treasury _) = true
non_transfer_filter (bounties _) = true
non_transfer_filter (child_bounties _) = true
non_transfer_filter (teerex _) = true
non_transfer_filter (teeracle _) = true
non_transfer_filter (sidechain _) = true
non_transfer_filter (proxy _) = true
non_transfer_filter (multisig _) = true
non_transfer_filter _ = false

governance_filter : RuntimeCall → Bool
governance_filter (treasury _) = true
governance_filter (bounties _) = true
governance_filter (child_bounties _) = true
governance_filter _ = false

cancel_proxy_filter : RuntimeCall → Bool
cancel_proxy_filter (proxy (reject_announcement _)) = true
cancel_proxy_filter _ = false

unfoldable pub filter : ProxyType → RuntimeCall → Bool
unfolding non_transfer_filter governance_filter cancel_proxy_filter
filter any_call c = true
filter non_transfer c = non_transfer_filter c
filter governance c = governance_filter c
filter cancel_proxy c = cancel_proxy_filter c

-- The arms after the first, which is the test for equality.
is_superset_of_other : ProxyType → ProxyType → Bool
is_superset_of_other any_call _ = true
is_superset_of_other _ any_call = false
is_superset_of_other non_transfer _ = true
is_superset_of_other _ _ = false

equal : ProxyType → ProxyType → Bool
unfolding ProxyType-discrete
equal x y = holds (ProxyType-discrete x y)

unfoldable pub is_superset : ProxyType → ProxyType → Bool
unfolding is_superset_of_other equal
is_superset x y = equal x y || is_superset_of_other x y
