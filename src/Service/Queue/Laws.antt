-- ===== src/Service/Queue/Laws.antt =====
-- How the verifications of an import queue end, before Aura and after.
use parachain.Base.{
  ℕ, ◌≡◌, refl, Bool, true, false, ◌&&◌, some, List, [], ◌∷◌, Result, ok, inl, inr, ap, Bool-cases,
  any, ◌||◌, arith,
}
use parachain.Service.Lazy.{BuildOnAccess, uninitialized, initialized, value}
use parachain.Service.Lazy.Laws.{access, get_mut-access}
use parachain.Service.Consensus.{Host, Produced, answer, has_aura}
use parachain.Service.Verifier.{Verifier, verify, verify_all}
use parachain.Service.Queue.{aura_verifier, aura_build_import_queue}

abbrev pub is_answer : {A : Type 0} → Produced A → Bool
is_answer (answer a) = true
is_answer _ = false

abbrev pub all_answers : {A : Type 0} → List (Produced A) → Bool
all_answers [] = true
all_answers (r ∷ rs) = is_answer r && all_answers rs

or-false : (a : Bool) {b : Bool} → (a || b) ≡ false → (a ≡ false) × (b ≡ false)
or-false a h = ground arith

module _ (H : Host) (slot_duration : H.World → Result H.ApiError ℕ)
    (build_verifier : ℕ → H.World → H.Engine × H.World) where
  -- A cell that holds a verifier, or still waits with the queue's builder.
  data IsReady : BuildOnAccess H.World H.Engine → Type 0 where
    built : (e : H.Engine) → IsReady (initialized e)
    waiting : IsReady (uninitialized (some (aura_verifier H slot_duration build_verifier)))

  aura_verifier_ok :
      (w : H.World) {d : ℕ}
      → slot_duration w ≡ ok d
      → aura_verifier H slot_duration build_verifier w
        ≡ (some (build_verifier d w).0, (build_verifier d w).1)
  unfolding aura_verifier
  aura_verifier_ok w p = rw (aura_verifier, p)

  module _ (named : (w : H.World) → (d : ℕ) × (slot_duration w ≡ ok d)) where
    access-IsReady :
        (cell : BuildOnAccess H.World H.Engine) (w : H.World)
        → IsReady cell
        → (e : H.Engine) × (w' : H.World) × (access cell w ≡ (value e, initialized e, w'))
    unfolding access
    access-IsReady cell w (built e) = (e, w, refl)
    access-IsReady cell w waiting =
        let (d, p) = named w in
        let q = aura_verifier_ok w p in
        (
          (build_verifier d w).0,
          (build_verifier d w).1,
          rw (access, ap (λ r. r.0) q, ap (λ r. r.1) q),
        )

    verify-IsReady :
        (b : H.Request) (v : Verifier H)
        → IsReady v.aura_verifier
        → (is_answer (verify H b v).0 ≡ true) × IsReady (verify H b v).1.aura_verifier
    unfolding verify
    verify-IsReady b v r = elim (Bool-cases (has_aura H (H.parent_hash b))) [
      | inl aura ↦
          let (e, w', p) = access-IsReady v.aura_verifier v.world r in
          rw (aura, get_mut-access 0 v.aura_verifier v.world, p) (refl, built (H.produce e b w').1)
      | inr relay ↦ rw relay (refl, r)
    ]

    verify_all-IsReady :
        (blocks : List H.Request) (v : Verifier H)
        → IsReady v.aura_verifier
        → all_answers (verify_all H blocks v).0 ≡ true
    unfolding verify_all
    verify_all-IsReady [] v r = refl
    verify_all-IsReady (b ∷ blocks) v r =
        let (answered, still) = verify-IsReady b v r in
        rw answered (verify_all-IsReady blocks (verify H b v).1 still)

    -- A queue that starts with `aura_build_import_queue` answers for every block of any sequence,
    -- whichever blocks have Aura: no verification panics and the loop never runs out, as long as
    -- the runtime names a slot duration.
    pub import_queue_answers :
        (blocks : List H.Request) (relay_chain_verifier : H.RelayEngine) (w : H.World)
        → all_answers
            (verify_all H blocks
              (aura_build_import_queue H slot_duration build_verifier relay_chain_verifier w)).0
          ≡ true
    unfolding aura_build_import_queue
    import_queue_answers blocks relay_chain_verifier w =
        verify_all-IsReady blocks
          (aura_build_import_queue H slot_duration build_verifier relay_chain_verifier w) waiting

  -- What a relayed verification leaves of the verifier.
  abbrev after_relay : H.Request → Verifier H → Verifier H
  after_relay b v =
      let (_, e, w) = H.relay_produce v.relay_chain_verifier b v.world in
      record v { relay_chain_verifier = e; world = w }

  verify_relayed :
      (b : H.Request) (v : Verifier H)
      → has_aura H (H.parent_hash b) ≡ false
      → verify H b v
        ≡ (answer (H.relay_produce v.relay_chain_verifier b v.world).0, after_relay b v)
  unfolding verify
  verify_relayed b v h = rw h

  relayed_only :
      (blocks : List H.Request) (v : Verifier H)
      → any (λ b. has_aura H (H.parent_hash b)) blocks ≡ false
      → (all_answers (verify_all H blocks v).0 ≡ true)
        × ((verify_all H blocks v).1.aura_verifier ≡ v.aura_verifier)
  unfolding verify_all
  relayed_only [] v none_has = (refl, refl)
  relayed_only (b ∷ blocks) v none_has =
      let (no_aura, no_more) = or-false (has_aura H (H.parent_hash b)) none_has in
      rw (verify_relayed b v no_aura) (relayed_only blocks (after_relay b v) no_more)

  -- As long as no block's parent has Aura the same queue answers for every block, and the builder
  -- is never asked, even if the runtime names no slot duration.
  pub import_queue_without_aura :
      (blocks : List H.Request) (relay_chain_verifier : H.RelayEngine) (w : H.World)
      → any (λ b. has_aura H (H.parent_hash b)) blocks ≡ false
      → let queue = aura_build_import_queue H slot_duration build_verifier relay_chain_verifier w in
        (all_answers (verify_all H blocks queue).0 ≡ true)
        × ((verify_all H blocks queue).1.aura_verifier ≡ queue.aura_verifier)
  import_queue_without_aura blocks relay_chain_verifier w none_has =
      relayed_only blocks
        (aura_build_import_queue H slot_duration build_verifier relay_chain_verifier w) none_has
