-- ===== src/Runtime/Governance/Laws.antt =====
-- What votes each governance action needs, under the documented behaviour of the origins.
use parachain.Base.{
  ℕ, ◌*◌, ◌≤◌, ◌<◌, ◌≡◌, refl, ◌↔◌, ◌⊎◌, Bool, true, false, ◌||◌, Option, none, some, leb, ltb,
  arith,
}
use parachain.Runtime.Governance.{
  Collective, council_instance, technical_committee_instance, Checks,
  ensure_root_or_more_than_half_council, DemocracyAction, external, external_majority,
  external_default, fast_track, instant, blacklist, cancel_proposal, TreasuryAction, approve,
  reject, democracy_origin, treasury_origin, PalletAction, set_council_members,
  set_technical_members, swap, pallet_origin,
}

-- The documented behaviour: `EitherOfDiverse` admits what one of its two parts admits; an origin of
-- a collective carries the number of ayes and of members; a proportion of `n / d` is exceeded if
-- `ayes * d > n * members`, and reached if `ayes * d ≥ n * members`.
pub record AreDocumented (K : Checks) : Type 0 where
  pub votes : Collective → K.Origin → Option (ℕ × ℕ)
  pub either : (l r : K.Origin → Bool) (o : K.Origin) → K.either_of_diverse l r o ≡ (l o || r o)
  pub more_than :
      (c : Collective) (n d : ℕ) (o : K.Origin)
      → K.ensure_proportion_more_than c n d o
        ≡ elim (votes c o) [ none ↦ false | some (ayes, members) ↦ ltb (n * members) (ayes * d) ]
  pub at_least :
      (c : Collective) (n d : ℕ) (o : K.Origin)
      → K.ensure_proportion_at_least c n d o
        ≡ elim (votes c o) [ none ↦ false | some (ayes, members) ↦ leb (n * members) (ayes * d) ]

module _ (K : Checks) (D : AreDocumented K) where
  council_lem :
      (o : K.Origin) {ayes members : ℕ}
      → K.ensure_root o ≡ false
      → D.votes council_instance o ≡ some (ayes, members)
      → (ensure_root_or_more_than_half_council K o ≡ true) ↔ (members < 2 * ayes)
  unfolding ensure_root_or_more_than_half_council
  council_lem o {ayes} {members} not_root votes =
      rw (D.either, not_root, D.more_than council_instance 1 2 o, votes) (ground arith)

  committee_lem :
      (n : ℕ) (o : K.Origin)
      → K.ensure_root o ≡ false
      → D.votes technical_committee_instance o ≡ none
      → K.either_of_diverse K.ensure_root
          (K.ensure_proportion_at_least technical_committee_instance 1 n)
          o
        ≡ false
  committee_lem n o not_root elsewhere =
      rw (D.either, not_root, D.at_least technical_committee_instance 1 n o, elsewhere) refl

  proportion_lem :
      (n : ℕ) (o : K.Origin) {ayes members : ℕ}
      → K.ensure_root o ≡ false
      → D.votes technical_committee_instance o ≡ some (ayes, members)
      → (K.either_of_diverse K.ensure_root
            (K.ensure_proportion_at_least technical_committee_instance 1 n)
            o
          ≡ true)
        ↔ (members ≤ ayes * n)
  proportion_lem n o {ayes} {members} not_root votes =
      rw (D.either, not_root, D.at_least technical_committee_instance 1 n o, votes) (ground arith)

  -- What an origin of the council, with its votes, which is neither root nor signed nor of the technical
  -- committee, may do: a strict majority proposes externally, blacklists, approves and rejects treasury
  -- spends, sets the members of both collectives and swaps by XCM; a tie does not suffice. All other
  -- actions of these pallets, spending from the treasury among them, are closed to it, however it voted.
  pub council_majority :
      (o : K.Origin) {ayes members : ℕ} (a : DemocracyAction) (t : TreasuryAction)
      (p : PalletAction)
      → K.ensure_root o ≡ false
      → D.votes council_instance o ≡ some (ayes, members)
      → D.votes technical_committee_instance o ≡ none
      → K.ensure_member technical_committee_instance o ≡ false
      → K.ensure_signed o ≡ false
      → ((democracy_origin K a o ≡ true) ↔ (
          ((a ≡ external) ⊎ (a ≡ external_majority) ⊎ (a ≡ external_default) ⊎ (a ≡ blacklist))
          × (members < 2 * ayes)))
        × ((treasury_origin K t o ≡ true) ↔ (((t ≡ approve) ⊎ (t ≡ reject)) × (members < 2 * ayes)))
        × ((pallet_origin K p o ≡ true) ↔ (
            ((p ≡ set_council_members) ⊎ (p ≡ set_technical_members) ⊎ (p ≡ swap))
            × (members < 2 * ayes)))
  unfolding democracy_origin treasury_origin pallet_origin
  council_majority o a t p not_root votes elsewhere not_member not_signed =
      let council = council_lem o not_root votes in
      let half = committee_lem 2 o not_root elsewhere in
      let all = committee_lem 1 o not_root elsewhere in
      (ground (arith, council, half, all), ground (arith, council), ground (arith, council))

  -- The technical committee's fast track is open to at least half of the members, and not only to
  -- more than half: a tie suffices. Cancelling a proposal needs all of them.
  pub technical_committee_half :
      (o : K.Origin) {ayes members : ℕ}
      → K.ensure_root o ≡ false
      → D.votes technical_committee_instance o ≡ some (ayes, members)
      → ((democracy_origin K fast_track o ≡ true) ↔ (members ≤ 2 * ayes))
        × ((democracy_origin K instant o ≡ true) ↔ (members ≤ 2 * ayes))
        × ((democracy_origin K cancel_proposal o ≡ true) ↔ (members ≤ ayes))
  unfolding democracy_origin
  technical_committee_half o {ayes} {members} not_root votes =
      let half = proportion_lem 2 o not_root votes in
      let all = proportion_lem 1 o not_root votes in
      (ground (arith, half), ground (arith, half), ground (arith, all))

  -- Whoever may cancel a proposal may also fast-track one.
  pub fast_track-of-cancel :
      (o : K.Origin)
      → democracy_origin K cancel_proposal o ≡ true
      → democracy_origin K fast_track o ≡ true
  unfolding democracy_origin
  fast_track-of-cancel o h = ground (
    arith,
    D.either K.ensure_root (K.ensure_proportion_at_least technical_committee_instance 1 2) o,
    D.either K.ensure_root (K.ensure_proportion_at_least technical_committee_instance 1 1) o,
    D.at_least technical_committee_instance 1 2 o,
    D.at_least technical_committee_instance 1 1 o,
  )
