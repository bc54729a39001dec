-- ===== src/Xcm/Origins.antt =====
-- Who an XCM origin is on this chain: `LocationToAccountId` and `XcmOriginToTransactDispatchOrigin` of
-- polkadot-parachains/integritee-runtime/src/xcm_config.rs, and the shell's copies. The converters and
-- the trying of a tuple in turn are of the `xcm-builder` and `xcm-executor` crates, hence parameters,
-- `Converters`.
pub mod Places
pub mod Laws
use parachain.Base.{ℕ, List, [], ◌∷◌, Option, Result}
use parachain.Xcm.Location.{NetworkId, MultiLocation}
use parachain.Xcm.Accounts.{relay_network, shell_relay_network}

pub data OriginKind : Type 0 where
  native sovereign_account superuser xcm : OriginKind

-- `AccountId`, by its bytes.
abbrev pub AccountId : Type 0
AccountId = List ℕ

-- `RuntimeOrigin`: those that the converters make, and all others by their encoding.
pub data RuntimeOrigin : Type 0 where
  root : RuntimeOrigin
  signed : AccountId → RuntimeOrigin
  relay : RuntimeOrigin
  sibling_parachain : ℕ → RuntimeOrigin
  xcm_origin : MultiLocation → RuntimeOrigin
  other_origin : ℕ → RuntimeOrigin

-- The traits `ConvertLocation`, and `ConvertOrigin`, which gives back a location that it cannot
-- convert.
abbrev pub ConvertLocation : Type 0
ConvertLocation = MultiLocation → Option AccountId

abbrev pub ConvertOrigin : Type 0
ConvertOrigin = MultiLocation → OriginKind → Result MultiLocation RuntimeOrigin

pub record Converters : Type 0 where
  pub first_location : List ConvertLocation → ConvertLocation
  pub parent_is_preset : ConvertLocation
  pub sibling_parachain_converts_via : ConvertLocation
  pub account_id32_aliases : NetworkId → ConvertLocation
  pub first_origin : List ConvertOrigin → ConvertOrigin
  pub sovereign_signed_via_location : ConvertLocation → ConvertOrigin
  pub relay_chain_as_native : RuntimeOrigin → ConvertOrigin
  pub sibling_parachain_as_native : ConvertOrigin
  pub parent_as_superuser : ConvertOrigin
  pub signed_account_id32_as_native : NetworkId → ConvertOrigin
  pub xcm_passthrough : ConvertOrigin

-- `RelayChainOrigin`
abbrev pub relay_chain_origin : RuntimeOrigin
relay_chain_origin = relay

abbrev pub shell_relay_chain_origin : RuntimeOrigin
shell_relay_chain_origin = relay

module _ (C : Converters) where
  unfoldable pub location_to_account_id : ConvertLocation
  location_to_account_id = C.first_location (
      C.parent_is_preset
      ∷ C.sibling_parachain_converts_via
      ∷ C.account_id32_aliases relay_network
      ∷ [])

  unfoldable pub xcm_origin_to_transact_dispatch_origin : ConvertOrigin
  xcm_origin_to_transact_dispatch_origin = C.first_origin (
      C.sovereign_signed_via_location location_to_account_id
      ∷ C.relay_chain_as_native relay_chain_origin
      ∷ C.sibling_parachain_as_native
      ∷ C.parent_as_superuser
      ∷ C.signed_account_id32_as_native relay_network
      ∷ C.xcm_passthrough
      ∷ [])

  unfoldable pub shell_location_to_account_id : ConvertLocation
  shell_location_to_account_id = C.first_location (
      C.parent_is_preset
      ∷ C.sibling_parachain_converts_via
      ∷ C.account_id32_aliases shell_relay_network
      ∷ [])

  unfoldable pub shell_xcm_origin_to_transact_dispatch_origin : ConvertOrigin
  shell_xcm_origin_to_transact_dispatch_origin = C.first_origin (
      C.sovereign_signed_via_location shell_location_to_account_id
      ∷ C.relay_chain_as_native shell_relay_chain_origin
      ∷ C.sibling_parachain_as_native
      ∷ C.parent_as_superuser
      ∷ C.signed_account_id32_as_native shell_relay_network
      ∷ C.xcm_passthrough
      ∷ [])
