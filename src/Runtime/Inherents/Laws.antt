-- ===== src/Runtime/Inherents/Laws.antt =====
-- What a block's inherents are checked against.
use native.Mathlib.Nat.{div-eq_of_lt-le}
use parachain.Base.{
  ℕ, ◌+◌, ◌*◌, ◌≤◌, ◌<◌, ◌≡◌, ◌↔◌, refl, Option, String, Result, ok, err, ◌>>=◌, ◌∙◌, arith, ◌⊎◌,
  inl, inr, leb, Bool-cases,
}
use parachain.Runtime.Periods.{slot_duration}
use parachain.Runtime.Inherents.{Outside, expect, check_inherents, shell_check_inherents}
use parachain.Service.Aura.{Clock, create_inherent_data_providers}
use parachain.Service.Aura.Laws.{IsDocumented, inherent_data_iff}

-- The time in milliseconds that inherent data carries. What is documented of the provider: as a
-- parachain starts to build at about the relay chain's next slot, the data it creates carries the
-- start of the slot after the one that it is given.
pub record Timestamps (O : Outside) : Type 0 where
  pub timestamp : O.InherentData → ℕ
  pub timestamp_of :
      (slot duration : ℕ) {inherent_data : O.InherentData}
      → O.create_inherent_data (O.from_relay_chain_slot_and_duration slot duration)
        ≡ ok inherent_data
      → timestamp inherent_data ≡ (slot + 1) * duration

expect_iff :
    {E A B : Type 0} (text : String) (r : Result E A) (f : A → Result String B) (b : B)
    → ((expect text r >>= f) ≡ ok b) ↔ ((a : A) × (r ≡ ok a) × (f a ≡ ok b))
expect_iff text (ok a) f b = (λ h. (a, refl, h), λ (a', p, q). let same : a ≡ a' = cc in rw same q)
expect_iff text (err e) f b = (λ h. cc, λ h. cc)

-- A time from a slot's start on and less than a half of a slot after its end is in it or in the next.
at_slot_or_next :
    (clock : Clock)
    → IsDocumented clock
    → {slot time : ℕ} → slot * 12_000 ≤ time
    → time < (slot + 1) * 12_000 + 6_000
    → (clock.slot_of time 12_000 ≡ slot) ⊎ (clock.slot_of time 12_000 ≡ slot + 1)
at_slot_or_next clock documented {slot} {time} from till =
    elim (Bool-cases (leb ((slot + 1) * 12_000) time)) [
      | inl late ↦
          inr (documented time 12_000 ∙ div-eq_of_lt-le 12_000 (ground arith) (omega (arith, till)))
      | inr early ↦ inl (documented time 12_000 ∙ div-eq_of_lt-le 12_000 from (ground arith))
    ]

module _ (O : Outside) (T : Timestamps O) (block : O.Block) (proof : O.Proof) where
  -- Both runtimes check alike. A result is given exactly if the proof has a slot and the data can be
  -- created, and is that of the check with data that carries the end of the relay chain's slot of
  -- 6 seconds; otherwise the check panics.
  pub check_inherents_iff :
      (result : O.CheckInherentsResult)
      → (check_inherents O block proof ≡ shell_check_inherents O block proof)
        × ((check_inherents O block proof ≡ ok result) ↔ (
            (slot : ℕ) × (given : O.InherentData) × (O.read_slot proof ≡ ok slot)
            × (O.create_inherent_data (O.from_relay_chain_slot_and_duration slot 6_000) ≡ ok given)
            × (T.timestamp given ≡ (slot + 1) * 6_000)
            × (O.check_extrinsics given block ≡ result)))
  unfolding check_inherents shell_check_inherents
  check_inherents_iff result = (
    refl,
    (
      λ h.
          let (slot, p, q) = (expect_iff _ (O.read_slot proof) _ result).0 h in
          let (given, c, r) = (expect_iff _ _ _ result).0 q in
          (slot, given, p, c, T.timestamp_of slot 6_000 c, cc),
      λ (slot, given, p, c, _, r). rw (p, c, r) refl,
    ),
  )

  -- For a collator whose slots are those of the runtime, and whose block is made within the relay
  -- chain's slot of the proof: the inherents are checked against a time that is later than the
  -- block's, by 6 seconds at most, and in the Aura slot of the block or in the next one.
  pub check_inherents_authored :
      {Inherent : Type 0} (clock : Clock)
      → IsDocumented clock
      → (create_at : Option Inherent) {slot time relay_slot : ℕ} {inherent : Inherent}
        {result : O.CheckInherentsResult}
      → create_inherent_data_providers Inherent clock slot_duration create_at
        ≡ ok (slot, time, inherent)
      → O.read_slot proof ≡ ok relay_slot
      → relay_slot * 6_000 ≤ time
      → time < (relay_slot + 1) * 6_000
      → check_inherents O block proof ≡ ok result
      → (given : O.InherentData) × (O.check_extrinsics given block ≡ result)
        × (time < T.timestamp given)
        × (T.timestamp given ≤ time + 6_000)
        × ((clock.slot_of (T.timestamp given) slot_duration ≡ slot)
            ⊎ (clock.slot_of (T.timestamp given) slot_duration ≡ slot + 1))
  check_inherents_authored clock documented create_at {slot} {time} {relay_slot} {inherent} {result}
        authored read low high checked =
      let (_, _, from, till, _) =
        (inherent_data_iff _ clock documented slot_duration create_at slot time inherent
            (omega arith)).0
          authored in
      let (k, given, p, _, t, c) = (check_inherents_iff result).1.0 checked in
      let same : k ≡ relay_slot = cc in
      (
        given,
        c,
        omega (arith, t, same, low),
        omega (arith, t, same, high),
        at_slot_or_next clock documented (omega (arith, t, same, from, high))
            (omega (arith, t, same, till, low)),
      )
