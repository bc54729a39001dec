-- ===== src/Xcm/Shell/Laws.antt =====
-- The readings of the shell against those of the full runtime, which it is upgraded to.
use mathlib.Core.Option
use parachain.Base.{ℕ, ◌≡◌, refl, Bool, true, false, Option, ◌==◌, if◌then◌else◌}
use parachain.Xcm.Location.{
  Junctions, here, x1, x2, deeper, para_chain, MultiLocation, AssetId, concrete, abstract_id,
  MultiAsset,
}
use parachain.Xcm.Currency
use parachain.Xcm.Reserve
use parachain.Xcm.Shell.{
  CurrencyId, shell_teer, convert_id, convert_location, convert_asset_id, convert_asset,
  teer_general_key, self_location_absolute, reserve,
}

-- The currency of the full runtime that a shell's currency becomes.
abbrev pub upgraded : CurrencyId → Currency.CurrencyId
upgraded shell_teer = Currency.teer

-- Two conditionals under the same test agree where their branches do.
map_if :
    {A B : Type 0} (f : A → B) (b : Bool) (x y : Option A) {x' y' : Option B}
    → Option.map f x ≡ x'
    → Option.map f y ≡ y'
    → Option.map f (if b then x else y) ≡ (if b then x' else y')
map_if f true x y hx hy = hx
map_if f false x y hx hy = hy

same_at :
    (p parents : ℕ) (interior : Junctions)
    → let l : MultiLocation = record { parents = parents; interior = interior } in
      Option.map upgraded (convert_location p l) ≡ Currency.convert_location p l
unfolding convert_location Currency.convert_location teer_general_key Currency.teer_general_key
same_at p parents here =
    map_if upgraded (parents == 1) _ _ refl (map_if upgraded (parents == 0) _ _ refl refl)
same_at p parents (x1 j) =
    map_if upgraded (parents == 1) _ _ refl
      (map_if upgraded (parents == 0) _ _ (map_if upgraded _ _ _ refl refl) refl)
same_at p parents (x2 (para_chain q) j) =
    map_if upgraded (parents == 1) _ _ (map_if upgraded _ _ _ refl refl)
      (map_if upgraded (parents == 0) _ _ refl refl)
same_at p parents (x2 _ j) =
    map_if upgraded (parents == 1) _ _ refl (map_if upgraded (parents == 0) _ _ refl refl)
same_at p parents (deeper i j k l) =
    map_if upgraded (parents == 1) _ _ refl (map_if upgraded (parents == 0) _ _ refl refl)

same_asset :
    (p : ℕ) (id : AssetId)
    → Option.map upgraded (convert_asset_id p id)
      ≡ Currency.convert_asset p (record { id = id; fun_code = 0 })
unfolding Currency.convert_asset convert_asset_id
same_asset p (concrete l) = same_at p l.parents l.interior
same_asset p (abstract_id x) = refl

same_id : (p : ℕ) (c : CurrencyId) → convert_id p c ≡ Currency.convert_id p (upgraded c)
unfolding convert_id Currency.convert_id teer_general_key Currency.teer_general_key
same_id p shell_teer = refl

-- For the same parachain id the shell gives a currency the location that the full runtime gives it,
-- and reads every location and every asset as the full runtime does.
pub shell_currency :
    (p : ℕ)
    → ((c : CurrencyId) → convert_id p c ≡ Currency.convert_id p (upgraded c))
      × ((l : MultiLocation)
          → Option.map upgraded (convert_location p l) ≡ Currency.convert_location p l)
      × ((a : MultiAsset) → Option.map upgraded (convert_asset p a) ≡ Currency.convert_asset p a)
unfolding convert_asset Currency.convert_asset
shell_currency p = (same_id p, λ l. same_at p l.parents l.interior, λ a. same_asset p a.id)

-- With the same provider of relative reserves, the shell finds the reserve that the full runtime
-- finds.
pub shell_reserve :
    (relative_reserve : MultiAsset → Option MultiLocation) (p : ℕ) (a : MultiAsset)
    → reserve relative_reserve (self_location_absolute p) a
      ≡ Reserve.reserve relative_reserve (Currency.self_location_absolute p) a
unfolding reserve Reserve.reserve self_location_absolute Currency.self_location_absolute
shell_reserve relative_reserve p a = refl
