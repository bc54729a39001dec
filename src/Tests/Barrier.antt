-- ===== src/Tests/Barrier.antt =====
-- The runtimes' barrier where a message has to be paid for, and is.
use parachain.Base.{◌≡◌, refl, ◌↔◌, ◌⊎◌, false, ℕ, List, [], ◌∷◌, ok, err, any}
use parachain.Xcm.Location.{here_location, parent_location}
use parachain.Xcm.Barrier.{
  unsupported, Weight, other_error, deposit_reserve_asset, other_instruction, Borrowed,
  ShouldExecute, sends_reserve_to_relay, deny_then_try, deny_reserve_transfer_to_relay_chain,
  is_relay_chain,
}
use parachain.Xcm.Barrier.Laws.{warned}
use parachain.Xcm.RuntimeBarrier.{Allowing, barrier, shell_barrier}
use parachain.Xcm.RuntimeBarrier.Laws.{or_else, AreDocumented, barrier_iff}

abbrev pub one_unit : Weight
one_unit = record { ref_time = 1; proof_size = 1 }

abbrev refuse : ShouldExecute ℕ
refuse origin max_weight s = (err (other_error 1), s)

abbrev accept : ShouldExecute ℕ
accept origin max_weight s = (ok tt, s)

abbrev try_allowing : List (ShouldExecute ℕ) → ShouldExecute ℕ
try_allowing [] origin max_weight s = (err (other_error 0), s)
try_allowing (allow ∷ allows) origin max_weight s =
    or_else (allow origin max_weight s) (λ s'. try_allowing allows origin max_weight s')

abbrev pub allowing : Allowing ℕ
allowing = record {
  take_weight_credit = refuse;
  allow_top_level_paid_execution_from = λ from. accept;
  allow_known_query_responses = refuse;
  allow_subscriptions_from = λ from. refuse;
  first_allowing = try_allowing;
}

abbrev allowing-AreDocumented : AreDocumented allowing
allowing-AreDocumented = record {
  last_error = other_error 0;
  first_allowing_nil = λ origin max_weight s. refl;
  first_allowing_cons = λ allow allows origin max_weight s. refl;
  take_keeps = λ origin max_weight s e refused. refl;
  paid_keeps = λ origin max_weight s e refused. refl;
  responses_keep = λ origin max_weight s e refused. refl;
  subscriptions_keep = λ origin max_weight s e refused. refl;
}

abbrev paying : Borrowed ℕ
paying = record { message = other_instruction 3 ∷ []; weight_credit = one_unit; log = [] }

abbrev paying_and_sending : Borrowed ℕ
paying_and_sending = record {
  message = other_instruction 3 ∷ deposit_reserve_asset parent_location 2 ∷ [];
  weight_credit = one_unit;
  log = [];
}

barrier_iff_example :
    let t = record paying { log = warned here_location paying } in
    (((barrier allowing here_location one_unit paying).0 ≡ ok tt) ↔ (
      (any sends_reserve_to_relay paying.message ≡ false)
      × (((refuse here_location one_unit t).0 ≡ ok tt)
          ⊎ (((accept here_location one_unit t).0 ≡ ok tt)
              ⊎ (((refuse here_location one_unit t).0 ≡ ok tt)
                  ⊎ ((refuse here_location one_unit t).0 ≡ ok tt))))))
    × (shell_barrier allowing here_location one_unit paying
        ≡ barrier allowing here_location one_unit paying)
barrier_iff_example = barrier_iff allowing allowing-AreDocumented here_location one_unit paying

paying_and_sending_refused :
    barrier allowing here_location one_unit paying_and_sending
    ≡ (err unsupported, paying_and_sending)
unfolding barrier deny_then_try deny_reserve_transfer_to_relay_chain sends_reserve_to_relay
    is_relay_chain
paying_and_sending_refused = refl
