-- ===== src/Xcm/Accounts/Laws.antt =====
-- The locations of accounts, currencies and the chain in both runtimes.
use mathlib.Core.Option
use parachain.Base.{ℕ, ◌≡◌, ◌↔◌, refl, List, none, ap}
use parachain.Xcm.Location.{MultiLocation, MultiAsset, Junction-discrete}
use parachain.Xcm.Currency
use parachain.Xcm.Shell
use parachain.Xcm.Shell.Laws.{upgraded, shell_currency}
use parachain.Xcm.Accounts.{
  universal_location, shell_universal_location, account_id_to_multi_location,
  shell_account_id_to_multi_location,
}

account-injective :
    (a b : List ℕ) → account_id_to_multi_location a ≡ account_id_to_multi_location b → a ≡ b
unfolding account_id_to_multi_location
account-injective a b e = cc

account_no_currency :
    (p : ℕ) (a : List ℕ) → Currency.convert_location p (account_id_to_multi_location a) ≡ none
unfolding account_id_to_multi_location Currency.convert_location Currency.teer_general_key
    Junction-discrete
account_no_currency p a = refl

-- For the same parachain id the shell and the full runtime agree: on the location of a currency, on
-- the currency of a location and of an asset, on the chain's place in the world and on the location of
-- an account. Two accounts have the same location only if they are the same, and none of these is
-- read as a currency.
pub shell_locations :
    (p : ℕ) (a b : List ℕ)
    → ((c : Shell.CurrencyId) → Shell.convert_id p c ≡ Currency.convert_id p (upgraded c))
      × ((l : MultiLocation)
          → Option.map upgraded (Shell.convert_location p l) ≡ Currency.convert_location p l)
      × ((x : MultiAsset)
          → Option.map upgraded (Shell.convert_asset p x) ≡ Currency.convert_asset p x)
      × (shell_universal_location p ≡ universal_location p)
      × (shell_account_id_to_multi_location a ≡ account_id_to_multi_location a)
      × ((account_id_to_multi_location a ≡ account_id_to_multi_location b) ↔ (a ≡ b))
      × (Currency.convert_location p (account_id_to_multi_location a) ≡ none)
unfolding shell_universal_location universal_location shell_account_id_to_multi_location
    account_id_to_multi_location
shell_locations p a b =
    let (ids, locations, assets) = shell_currency p in
    (
      ids,
      locations,
      assets,
      refl,
      refl,
      (account-injective a b, λ e. ap account_id_to_multi_location e),
      account_no_currency p a,
    )
