-- ===== src/Runtime/Proxy/Laws.antt =====
-- `is_superset` against the filters, and what the filters say of calls that move funds
-- (polkadot-parachains/integritee-runtime/src/lib.rs).
use parachain.Base.{ℕ, ◌≡◌, refl, ◌↔◌, true, arith}
use parachain.Runtime.Proxy.{
  reject_announcement, RuntimeCall, proxy, balances, treasury, system, vesting, x_tokens,
  polkadot_xcm, enclave_bridge, ProxyType, any_call, non_transfer, governance, cancel_proxy, filter,
  is_superset,
}

superset_sound :
    (x y : ProxyType)
    → is_superset x y ≡ true
    → (c : RuntimeCall) → filter y c ≡ true
    → filter x c ≡ true
unfolding is_superset filter
superset_sound any_call y h c a = refl
superset_sound non_transfer any_call h c a = cc
superset_sound non_transfer non_transfer h c a = a
superset_sound non_transfer governance h c a = ground arith
superset_sound non_transfer cancel_proxy h c a = ground arith
superset_sound governance governance h c a = a
superset_sound governance any_call h c a = cc
superset_sound governance non_transfer h c a = cc
superset_sound governance cancel_proxy h c a = cc
superset_sound cancel_proxy cancel_proxy h c a = a
superset_sound cancel_proxy any_call h c a = cc
superset_sound cancel_proxy non_transfer h c a = cc
superset_sound cancel_proxy governance h c a = cc

superset_complete :
    (x y : ProxyType)
    → ((c : RuntimeCall) → filter y c ≡ true → filter x c ≡ true)
    → is_superset x y ≡ true
unfolding is_superset filter
superset_complete any_call any_call h = refl
superset_complete any_call _ h = refl
superset_complete non_transfer any_call h = cc (h (balances 0) refl)
superset_complete non_transfer _ h = refl
superset_complete governance governance h = refl
superset_complete governance any_call h = cc (h (balances 0) refl)
superset_complete governance non_transfer h = cc (h (system 0) refl)
superset_complete governance cancel_proxy h = cc (h (proxy (reject_announcement 0)) refl)
superset_complete cancel_proxy cancel_proxy h = refl
superset_complete cancel_proxy any_call h = cc (h (balances 0) refl)
superset_complete cancel_proxy non_transfer h = cc (h (system 0) refl)
superset_complete cancel_proxy governance h = cc (h (treasury 0) refl)

-- A kind of proxy is a superset of another exactly when it allows every call that the other allows.
pub is_superset_iff :
    (x y : ProxyType)
    → (is_superset x y ≡ true) ↔ ((c : RuntimeCall) → filter y c ≡ true → filter x c ≡ true)
is_superset_iff x y = (superset_sound x y, superset_complete x y)

-- The calls that move funds to another account or chain: those of `Balances`, `Vesting`, `XTokens`,
-- `PolkadotXcm` and `EnclaveBridge`.
pub data Transfers : RuntimeCall → Type 0 where
  by_balances : (n : ℕ) → Transfers (balances n)
  by_vesting : (n : ℕ) → Transfers (vesting n)
  by_x_tokens : (n : ℕ) → Transfers (x_tokens n)
  by_polkadot_xcm : (n : ℕ) → Transfers (polkadot_xcm n)
  by_enclave_bridge : (n : ℕ) → Transfers (enclave_bridge n)

-- Only a proxy for any call may move funds by a call of its own.
pub filter_transfer :
    (p : ProxyType) {c : RuntimeCall} → Transfers c → filter p c ≡ true → p ≡ any_call
unfolding filter
filter_transfer any_call t h = refl
filter_transfer p (by_balances n) h = ground arith
filter_transfer p (by_vesting n) h = ground arith
filter_transfer p (by_x_tokens n) h = ground arith
filter_transfer p (by_polkadot_xcm n) h = ground arith
filter_transfer p (by_enclave_bridge n) h = ground arith
