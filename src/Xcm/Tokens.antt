-- ===== src/Xcm/Tokens.antt =====
-- The configuration of `orml_xtokens` in polkadot-parachains/integritee-runtime/src/xcm_config.rs, as
-- far as a transfer of a currency reads it; the shell runtime has no such pallet. The pallet is outside
-- the repository, hence a parameter: what it builds is run on the local chain, behind the runtime's
-- barrier.
pub mod Laws
use parachain.Base.{ℕ, ◌*◌, List, Option, none}
use parachain.Xcm.Location.{MultiLocation, MultiAsset, here_location}
use parachain.Xcm.Barrier.{Weight, Instruction}
use parachain.Xcm.Currency.{CurrencyId, self_location, self_location_absolute, convert_id}
use parachain.Xcm.Reserve.{reserve}
use parachain.Xcm.Weigher.{default_proof_size}

unfoldable pub base_xcm_weight : Weight
base_xcm_weight = record { ref_time = 200_000_000; proof_size = default_proof_size }

-- `ParachainMinFee`
unfoldable pub parachain_min_fee : MultiLocation → Option ℕ
parachain_min_fee location = none

pub record TokensConfig (Currency : Type 0) : Type 0 where
  pub currency_id_convert : Currency → Option MultiLocation
  pub self_location_of : MultiLocation
  pub base_weight : Weight
  pub max_assets_for_transfer : ℕ
  pub min_xcm_fee : MultiLocation → Option ℕ
  pub reserve_provider : MultiAsset → Option MultiLocation

module _ (relative_reserve : MultiAsset → Option MultiLocation) (self_para_id : ℕ) where
  unfoldable pub tokens_config : TokensConfig CurrencyId
  unfolding base_xcm_weight parachain_min_fee
  tokens_config = record {
    currency_id_convert = convert_id self_para_id;
    self_location_of = self_location;
    base_weight = base_xcm_weight;
    max_assets_for_transfer = 2;
    min_xcm_fee = parachain_min_fee;
    reserve_provider = reserve relative_reserve (self_location_absolute self_para_id);
  }

-- The pallet's transfer of an amount of a currency to a recipient on a chain: the message that it runs
-- locally, if it comes to that.
abbrev pub Transfer : Type 0 → Type 0 → Type 0
Transfer Rest Currency =
    TokensConfig Currency
    → Currency
    → ℕ
    → MultiLocation
    → MultiLocation
    → Option (List (Instruction Rest))
