-- ===== src/Xcm/Barrier/Laws.antt =====
-- What the barrier lets through, whichever barrier it is combined with.
use parachain.Base.{
  ◌≡◌, refl, ◌↔◌, inl, inr, true, false, ◌&&◌, List, ◌++◌, [], ◌∷◌, ok, err, any, if◌then◌else◌,
  arith, Bool-cases, ap,
}
use mathlib.Core.List.{Memᴰ}
use parachain.Xcm.Location.{MultiLocation, parent_location}
use parachain.Xcm.Barrier.{
  Weight, unsupported, Instruction, initiate_reserve_withdraw, deposit_reserve_asset,
  transfer_reserve_asset, reserve_asset_deposited, other_instruction, Warning,
  unexpected_reserve_asset_deposited, Borrowed, ShouldExecute, is_relay_chain, deny_then_try,
  sends_reserve_to_relay, is_reserve_asset_deposited, deny_reserve_transfer_to_relay_chain,
}

pub is_relay_chain_iff : (l : MultiLocation) → (is_relay_chain l ≡ true) ↔ (l ≡ parent_location)
unfolding is_relay_chain
is_relay_chain_iff l = ground arith

module _ {Rest : Type 0} where
  -- The three ways in which an instruction sends its assets to the relay chain as a reserve.
  pub data ToRelay : Instruction Rest → Type 0 where
    withdraws : (rest : Rest) → ToRelay (initiate_reserve_withdraw parent_location rest)
    deposits : (rest : Rest) → ToRelay (deposit_reserve_asset parent_location rest)
    transfers : (rest : Rest) → ToRelay (transfer_reserve_asset parent_location rest)

  sends_of_ToRelay : {i : Instruction Rest} → ToRelay i → sends_reserve_to_relay i ≡ true
  unfolding sends_reserve_to_relay
  sends_of_ToRelay (withdraws rest) = refl
  sends_of_ToRelay (deposits rest) = refl
  sends_of_ToRelay (transfers rest) = refl

  any_of_mem :
      {i : Instruction Rest} (message : List (Instruction Rest))
      → ToRelay i
      → Memᴰ i message
      → any sends_reserve_to_relay message ≡ true
  any_of_mem [] t m = elim m [ ]
  any_of_mem (j ∷ message) t (Memᴰ.head e) =
      ground (arith, ap sends_reserve_to_relay e, sends_of_ToRelay t)
  any_of_mem (j ∷ message) t (Memᴰ.tail m) = ground (arith, any_of_mem message t m)

  ToRelay-of_sends : (i : Instruction Rest) → sends_reserve_to_relay i ≡ true → ToRelay i
  unfolding sends_reserve_to_relay
  ToRelay-of_sends (initiate_reserve_withdraw l r) h = rw ((is_relay_chain_iff l).0 h) (withdraws r)
  ToRelay-of_sends (deposit_reserve_asset l r) h = rw ((is_relay_chain_iff l).0 h) (deposits r)
  ToRelay-of_sends (transfer_reserve_asset l r) h = rw ((is_relay_chain_iff l).0 h) (transfers r)
  ToRelay-of_sends (reserve_asset_deposited r) h = cc
  ToRelay-of_sends (other_instruction r) h = cc

  any_of_none :
      (message : List (Instruction Rest))
      → ((i : Instruction Rest) → Memᴰ i message → ¬ ToRelay i)
      → any sends_reserve_to_relay message ≡ false
  any_of_none [] h = refl
  any_of_none (i ∷ message) h = elim (Bool-cases (sends_reserve_to_relay i)) [
    | inl sends ↦ absurd (h i (Memᴰ.head refl) (ToRelay-of_sends i sends))
    | inr keeps ↦ rw keeps (any_of_none message (λ j m. h j (Memᴰ.tail m)))
  ]

  -- The log after the first barrier has let a message through.
  abbrev pub warned : MultiLocation → Borrowed Rest → List Warning
  warned origin s =
      if is_relay_chain origin && any is_reserve_asset_deposited s.message
      then s.log ++ (unexpected_reserve_asset_deposited ∷ [])
      else s.log

  pub deny_refuses :
      (origin : MultiLocation) (max_weight : Weight) (s : Borrowed Rest)
      → any sends_reserve_to_relay s.message ≡ true
      → deny_reserve_transfer_to_relay_chain origin max_weight s ≡ (err unsupported, s)
  unfolding deny_reserve_transfer_to_relay_chain
  deny_refuses origin max_weight s h = rw h

  pub deny_passes :
      (origin : MultiLocation) (max_weight : Weight) (s : Borrowed Rest)
      → any sends_reserve_to_relay s.message ≡ false
      → deny_reserve_transfer_to_relay_chain origin max_weight s
        ≡ (ok tt, record s { log = warned origin s })
  unfolding deny_reserve_transfer_to_relay_chain
  deny_passes origin max_weight s h =
      rw h (elim (Bool-cases (is_relay_chain origin && any is_reserve_asset_deposited s.message)) [
        | inl w ↦ rw w
        | inr w ↦ rw w
      ])

  -- A message with an instruction, at any place, that withdraws, deposits or transfers a reserve to
  -- the relay chain is refused as unsupported, whatever the origin, the credit and the second
  -- barrier; the message, the credit and the log are left as they were.
  pub deny_then_try_refuses :
      (allow : ShouldExecute Rest) (origin : MultiLocation) (max_weight : Weight)
      (s : Borrowed Rest) {i : Instruction Rest}
      → ToRelay i
      → Memᴰ i s.message
      → deny_then_try deny_reserve_transfer_to_relay_chain allow origin max_weight s
        ≡ (err unsupported, s)
  unfolding deny_then_try
  deny_then_try_refuses allow origin max_weight s t m =
      rw (deny_then_try, deny_refuses origin max_weight s (any_of_mem s.message t m))

  -- Any other message is left to the second barrier, with the message and the credit untouched.
  pub deny_then_try_defers :
      (allow : ShouldExecute Rest) (origin : MultiLocation) (max_weight : Weight)
      (s : Borrowed Rest)
      → ((i : Instruction Rest) → Memᴰ i s.message → ¬ ToRelay i)
      → deny_then_try deny_reserve_transfer_to_relay_chain allow origin max_weight s
        ≡ allow origin max_weight (record s { log = warned origin s })
  unfolding deny_then_try
  deny_then_try_defers allow origin max_weight s none_sent =
      rw (deny_then_try, deny_passes origin max_weight s (any_of_none s.message none_sent))
