-- ===== src/Service/Aura/Laws.antt =====
-- When a node with the Aura closures comes up, and the slots of the blocks that it authors.
use native.Mathlib.Nat.{mod-lt, div-add-mod, div-eq_of_lt-le}
use parachain.Base.{
  sym, ℕ, ◌+◌, ◌*◌, ◌/◌, ◌≤◌, ◌<◌, ◌≡◌, ◌↔◌, Bool, false, String, Option, none, some, ok, err,
  arith,
}
use parachain.Service.Node.{
  Settings, Outcomes, start_node_impl, new_partial, report_hwbench, as_collator,
}
use parachain.Service.Aura.{
  verifier_inherent_data_providers, Clock, create_inherent_data_providers, build_consensus,
  start_generic_aura_node,
}

module _ (Inherent : Type 0) {ApiError Error : Type 0} (unwrap_text : ApiError → String) where
  -- While the runtime names no slot duration, a node comes up exactly if it is no authority and would
  -- come up with one: a collator never does.
  pub aura_node_without_duration :
      (s : Settings) (o : Outcomes Error) (force_authoring : Bool) (e : ApiError) (duration : ℕ)
      → ((start_generic_aura_node Inherent unwrap_text (err e) force_authoring s o).0 ≡ ok tt) ↔ (
          ((start_generic_aura_node Inherent unwrap_text (ok duration) force_authoring s o).0
            ≡ ok tt)
          × (s.is_authority ≡ false))
  unfolding start_generic_aura_node start_node_impl new_partial report_hwbench as_collator
      build_consensus
  aura_node_without_duration s o force_authoring e duration = ground arith

pub slot_iff : (t d k : ℕ) → 0 < d → (t / d ≡ k) ↔ ((k * d ≤ t) × (t < (k + 1) * d))
slot_iff t d k pos =
    (λ e. grind (arith, e, div-add-mod t d, mod-lt t pos), λ h. div-eq_of_lt-le d h.0 h.1)

-- What is documented of the slot of a time: the time over the duration, rounded down.
abbrev pub IsDocumented : Clock → Type 0
IsDocumented clock = (t d : ℕ) → clock.slot_of t d ≡ t / d

module _ (Inherent : Type 0) (clock : Clock) (documented : IsDocumented clock) where
  -- A collator's block is given a slot, a time and an inherent exactly if the inherent could be made,
  -- the time is the system's, and it lies in the slot, for a duration that is not 0. The verifier's
  -- providers give the same slot and time then.
  pub inherent_data_iff :
      (duration : ℕ) (create_at : Option Inherent) (slot timestamp : ℕ) (inherent : Inherent)
      → 0 < duration
      → (create_inherent_data_providers Inherent clock duration create_at
          ≡ ok (slot, timestamp, inherent))
        ↔ ((create_at ≡ some inherent)
            × (clock.from_system_time ≡ timestamp)
            × (slot * duration ≤ timestamp)
            × (timestamp < (slot + 1) * duration)
            × (verifier_inherent_data_providers clock duration ≡ (slot, timestamp)))
  unfolding create_inherent_data_providers verifier_inherent_data_providers
  inherent_data_iff duration none slot timestamp inherent pos = (λ e. cc, λ h. cc)
  inherent_data_iff duration (some i) slot timestamp inherent pos =
      let now = clock.from_system_time in
      let q = documented now duration in
      let (inside, found) = slot_iff now duration slot pos in
      (
        λ e.
            let t : now ≡ timestamp = cc in
            let k : now / duration ≡ slot = cc in
            let (low, high) = inside k in (cc, t, rw (sym t) low, rw (sym t) high, cc),
        λ (p, t, low, high, _).
            let k : now / duration ≡ slot =
              rw t (omega (arith, div-eq_of_lt-le duration low high)) in
            cc,
      )
