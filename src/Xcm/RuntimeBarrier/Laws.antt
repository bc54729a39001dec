-- ===== src/Xcm/RuntimeBarrier/Laws.antt =====
-- Which messages the runtimes' barrier lets through.
use parachain.Base.{
  ◌≡◌, refl, ◌↔◌, ◌⊎◌, inl, inr, Bool-cases, false, List, [], ◌∷◌, Result, ok, err, any,
}
use parachain.Xcm.Location.{MultiLocation}
use parachain.Xcm.Barrier.{
  Weight, ProcessMessageError, Borrowed, ShouldExecute, deny_then_try, sends_reserve_to_relay,
}
use parachain.Xcm.Barrier.Laws.{warned, deny_refuses, deny_passes}
use parachain.Xcm.RuntimeBarrier.{everything, Allowing, barrier, shell_barrier}

module _ {Rest : Type 0} where
  abbrev pub or_else :
      Result ProcessMessageError (Unit {0}) × Borrowed Rest
      → (Borrowed Rest → Result ProcessMessageError (Unit {0}) × Borrowed Rest)
      → Result ProcessMessageError (Unit {0}) × Borrowed Rest
  or_else (ok t, s) next = (ok t, s)
  or_else (err e, s) next = next s

  -- A barrier that refuses a message leaves it, the credit and the log as they were.
  abbrev pub KeepsRefused : ShouldExecute Rest → Type 0
  KeepsRefused allow =
      (origin : MultiLocation) (max_weight : Weight) (s : Borrowed Rest) (e : ProcessMessageError)
      → (allow origin max_weight s).0 ≡ err e
      → (allow origin max_weight s).1 ≡ s

  pub record AreDocumented (A : Allowing Rest) : Type 0 where
    pub last_error : ProcessMessageError
    pub first_allowing_nil :
        (origin : MultiLocation) (max_weight : Weight) (s : Borrowed Rest)
        → A.first_allowing [] origin max_weight s ≡ (err last_error, s)
    pub first_allowing_cons :
        (allow : ShouldExecute Rest) (allows : List (ShouldExecute Rest)) (origin : MultiLocation)
        (max_weight : Weight) (s : Borrowed Rest)
        → A.first_allowing (allow ∷ allows) origin max_weight s
          ≡ or_else (allow origin max_weight s) (λ s'. A.first_allowing allows origin max_weight s')
    pub take_keeps : KeepsRefused A.take_weight_credit
    pub paid_keeps : KeepsRefused (A.allow_top_level_paid_execution_from everything)
    pub responses_keep : KeepsRefused A.allow_known_query_responses
    pub subscriptions_keep : KeepsRefused (A.allow_subscriptions_from everything)

  or_else_iff :
      (r : Result ProcessMessageError (Unit {0}) × Borrowed Rest)
      (next : Borrowed Rest → Result ProcessMessageError (Unit {0}) × Borrowed Rest)
      (s : Borrowed Rest)
      → ((e : ProcessMessageError) → r.0 ≡ err e → r.1 ≡ s)
      → ((or_else r next).0 ≡ ok tt) ↔ ((r.0 ≡ ok tt) ⊎ ((next s).0 ≡ ok tt))
  or_else_iff (ok t, s') next s keeps = (λ e. inl e, λ h. refl)
  or_else_iff (err x, s') next s keeps =
      let same : s' ≡ s = keeps x refl in
      rw same (λ e. inr e, λ h. elim h [ inl e ↦ cc | inr e ↦ e ])

  module _ (A : Allowing Rest) (D : AreDocumented A) where
    -- One more barrier in front.
    allowing_cons_iff :
        {P : Type 0} (allow : ShouldExecute Rest) (allows : List (ShouldExecute Rest))
        (origin : MultiLocation) (max_weight : Weight) (s : Borrowed Rest)
        → KeepsRefused allow
        → ((A.first_allowing allows origin max_weight s).0 ≡ ok tt) ↔ P
        → ((A.first_allowing (allow ∷ allows) origin max_weight s).0 ≡ ok tt)
          ↔ (((allow origin max_weight s).0 ≡ ok tt) ⊎ P)
    allowing_cons_iff allow allows origin max_weight s keeps (to, from) =
        let (split, join) =
          or_else_iff (allow origin max_weight s)
            (λ s'. A.first_allowing allows origin max_weight s') s (keeps origin max_weight s) in
        rw (D.first_allowing_cons allow allows origin max_weight s) (
          λ h. elim (split h) [ inl e ↦ inl e | inr e ↦ inr (to e) ],
          λ h. elim h [ inl e ↦ join (inl e) | inr p ↦ join (inr (from p)) ],
        )

    last_allowing_iff :
        (allow : ShouldExecute Rest) (origin : MultiLocation) (max_weight : Weight)
        (s : Borrowed Rest)
        → KeepsRefused allow
        → ((A.first_allowing (allow ∷ []) origin max_weight s).0 ≡ ok tt)
          ↔ ((allow origin max_weight s).0 ≡ ok tt)
    last_allowing_iff allow origin max_weight s keeps =
        let (to, from) =
          allowing_cons_iff {P = ⊥} allow [] origin max_weight s keeps
            (rw (D.first_allowing_nil origin max_weight s) (λ e. cc, λ h. absurd h)) in
        (λ e. elim (to e) [ inl a ↦ a | inr nothing ↦ absurd nothing ], λ e. from (inl e))

    -- A message is let through exactly if no instruction at its top level sends a reserve to the relay
    -- chain, and one of the four barriers behind lets it through, as it stands but for the warning in
    -- the log. Both runtimes let the same messages through.
    pub barrier_iff :
        (origin : MultiLocation) (max_weight : Weight) (s : Borrowed Rest)
        → let t = record s { log = warned origin s } in
          (((barrier A origin max_weight s).0 ≡ ok tt) ↔ (
            (any sends_reserve_to_relay s.message ≡ false)
            × (((A.take_weight_credit origin max_weight t).0 ≡ ok tt)
                ⊎ (((A.allow_top_level_paid_execution_from everything origin max_weight t).0
                      ≡ ok tt)
                    ⊎ (((A.allow_known_query_responses origin max_weight t).0 ≡ ok tt)
                        ⊎ ((A.allow_subscriptions_from everything origin max_weight t).0
                            ≡ ok tt))))))
          × (shell_barrier A origin max_weight s ≡ barrier A origin max_weight s)
    unfolding barrier shell_barrier deny_then_try
    barrier_iff origin max_weight s =
        let t = record s { log = warned origin s } in
        let four = allowing_cons_iff _ _ origin max_weight t D.take_keeps (
          allowing_cons_iff _ _ origin max_weight t D.paid_keeps (
            allowing_cons_iff _ _ origin max_weight t D.responses_keep
              (last_allowing_iff _ origin max_weight t D.subscriptions_keep))) in
        elim (Bool-cases (any sends_reserve_to_relay s.message)) [
          | inl sends ↦
              (rw (deny_then_try, deny_refuses origin max_weight s sends) (λ e. cc, λ h. cc), refl)
          | inr keeps ↦ (
            rw (deny_then_try, deny_passes origin max_weight s keeps)
                (λ e. (keeps, four.0 e), λ h. four.1 h.1),
            refl,
          )
        ]
