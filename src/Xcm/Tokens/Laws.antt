-- ===== src/Xcm/Tokens/Laws.antt =====
-- Where the chain's own currency can be sent.
use parachain.Base.{ℕ, ◌≡◌, refl, ◌≢◌, inl, false, List, [], ◌∷◌, some, err, any, arith}
use mathlib.Core.List.{Memᴰ}
use parachain.Xcm.Location.{
  MultiLocation, x2, para_chain, concrete, MultiAsset, here_location, parent_location,
}
use parachain.Xcm.Currency.{CurrencyId, teer, teer_general_key, convert_id, convert_asset}
use parachain.Xcm.Currency.Laws.{convert_asset_iff}
use parachain.Xcm.Executor.{ReserveProvider, AssetFilter}
use parachain.Xcm.Executor.Laws
use parachain.Xcm.Barrier.{
  Weight, unsupported, Instruction, transfer_reserve_asset, Borrowed, sends_reserve_to_relay,
}
use parachain.Xcm.Barrier.Laws.{is_relay_chain_iff, transfers, deny_then_try_refuses}
use parachain.Xcm.RuntimeBarrier.{Allowing, barrier}
use parachain.Xcm.Tokens.{TokensConfig, Transfer, tokens_config}

-- What is documented of a transfer: where the reserve of the asset is this chain, and the destination
-- is another, the message that is run, if any, transfers the asset as a reserve to the destination.
pub record IsDocumented {Rest : Type 0} (T : Transfer Rest CurrencyId) : Type 0 where
  pub carried : MultiLocation → MultiAsset → Rest
  pub self_reserve_lem :
      (P : TokensConfig CurrencyId) (c : CurrencyId) (amount : ℕ)
      (chain recipient l : MultiLocation) (m : List (Instruction Rest))
      → P.currency_id_convert c ≡ some l
      → P.reserve_provider (record { id = concrete l; fun_code = amount }) ≡ some P.self_location_of
      → chain ≢ P.self_location_of
      → T P c amount chain recipient ≡ some m
      → m
        ≡ transfer_reserve_asset chain
            (carried recipient (record { id = concrete l; fun_code = amount }))
          ∷ []

sends_one :
    {Rest : Type 0} (chain : MultiLocation) (rest : Rest)
    → chain ≢ parent_location
    → any sends_reserve_to_relay (transfer_reserve_asset chain rest ∷ []) ≡ false
unfolding sends_reserve_to_relay
sends_one chain rest elsewhere = ground (arith, is_relay_chain_iff chain)

module _ {Rest : Type 0} (T : Transfer Rest CurrencyId) (E : IsDocumented T)
    (f : ReserveProvider → AssetFilter) (r : ReserveProvider) (D : Laws.AreDocumented f r)
    (self_para_id : ℕ) where
  own_message :
      (amount : ℕ) (chain recipient : MultiLocation) (m : List (Instruction Rest))
      → chain ≢ here_location
      → T (tokens_config r self_para_id) teer amount chain recipient ≡ some m
      → (rest : Rest) × (m ≡ transfer_reserve_asset chain rest ∷ [])
  unfolding tokens_config convert_id
  own_message amount chain recipient m away sent =
      let own : MultiLocation = record {
        parents = 1;
        interior = x2 (para_chain self_para_id) teer_general_key;
      } in
      let asset : MultiAsset = record { id = concrete own; fun_code = amount } in
      let is_own : convert_asset self_para_id asset ≡ some teer =
        (convert_asset_iff self_para_id asset).1 (own, refl, inl refl) in
      let home = (Laws.own_reserve f r D self_para_id asset here_location is_own).0 in
      (
        _,
        E.self_reserve_lem (tokens_config r self_para_id) teer amount chain recipient own m refl
            home away sent,
      )

  -- The chain's own currency cannot be sent to the relay chain by xtokens: the message for it is refused
  -- by the runtime's barrier, from any origin. To any other chain than this one the message passes the
  -- first barrier.
  pub own_transfer :
      (A : Allowing Rest) (amount : ℕ) (chain recipient origin : MultiLocation)
      (max_weight : Weight) (s : Borrowed Rest) (m : List (Instruction Rest))
      → T (tokens_config r self_para_id) teer amount parent_location recipient ≡ some s.message
      → T (tokens_config r self_para_id) teer amount chain recipient ≡ some m
      → chain ≢ here_location
      → chain ≢ parent_location
      → (barrier A origin max_weight s ≡ (err unsupported, s))
        × (any sends_reserve_to_relay m ≡ false)
  unfolding barrier
  own_transfer A amount chain recipient origin max_weight s m sent sent' away elsewhere =
      let (rest, to_relay) =
        own_message amount parent_location recipient s.message (λ e. cc) sent in
      let (rest', to_chain) = own_message amount chain recipient m away sent' in
      (
        deny_then_try_refuses _ origin max_weight s (transfers rest) (rw to_relay (Memᴰ.head refl)),
        rw to_chain (sends_one chain rest' elsewhere),
      )
