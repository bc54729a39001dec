-- ===== src/Xcm/Origins/Laws.antt =====
-- Which rights an XCM origin is given.
use parachain.Base.{
  ℕ, ◌≡◌, refl, ◌∙◌, ap, ◌↔◌, ◌⊎◌, List, ◌∷◌, Option, none, some, Result, ok, err, arith,
}
use parachain.Xcm.Location.{kusama, Junctions, here, MultiLocation, parent_location}
use parachain.Xcm.Origins.{
  OriginKind, native, sovereign_account, superuser, AccountId, RuntimeOrigin, root, signed, relay,
  sibling_parachain, ConvertOrigin, Converters, location_to_account_id,
  xcm_origin_to_transact_dispatch_origin, shell_location_to_account_id,
  shell_xcm_origin_to_transact_dispatch_origin,
}
use parachain.Xcm.Origins.Places.{
  Place, place_at, place_of, preset, derived, alias, or_next, via_account, as_relay, as_sibling,
  as_root, as_signed, as_xcm, given, try_next, AreDocumented, account_of, origin_of, parent,
  sibling, account, elsewhere,
}

choose_account :
    (pa : AccountId) (sa : ℕ → AccountId) (p : Place)
    → or_next (preset pa p) (or_next (derived sa p) (or_next (alias kusama p) none))
      ≡ account_of pa sa p
choose_account pa sa parent = refl
choose_account pa sa (sibling id) = refl
choose_account pa sa (account n id) = ground arith
choose_account pa sa elsewhere = refl

try_given :
    (l : MultiLocation) (o next : Option RuntimeOrigin)
    (f : MultiLocation → Result MultiLocation RuntimeOrigin)
    → f l ≡ given l next
    → try_next (given l o) f ≡ given l (or_next o next)
unfolding given
try_given l none next f e = e
try_given l (some o) next f e = refl

given-none : (l : MultiLocation) → err l ≡ given l none
unfolding given
given-none l = refl

choose_origin :
    (pa : AccountId) (sa : ℕ → AccountId) (l : MultiLocation) (p : Place) (k : OriginKind)
    → or_next (via_account (account_of pa sa p) k) (
        or_next (as_relay relay p k) (
          or_next
            (as_sibling p k)
            (or_next (as_root p k) (or_next (as_signed kusama p k) (or_next (as_xcm l k) none)))))
      ≡ origin_of pa sa l p k
choose_origin pa sa l p k = ground arith

rights_at :
    (pa : AccountId) (sa : ℕ → AccountId) (l : MultiLocation) (p : Place) (k : OriginKind)
    (id : AccountId) (n : ℕ)
    → let o = given l (origin_of pa sa l p k) in
      ((o ≡ ok root) ↔ ((p ≡ parent) × (k ≡ superuser)))
      × ((o ≡ ok relay) ↔ ((p ≡ parent) × (k ≡ native)))
      × ((o ≡ ok (sibling_parachain n)) ↔ ((p ≡ sibling n) × (k ≡ native)))
      × ((o ≡ ok (signed id)) ↔ (
          ((k ≡ sovereign_account) × (account_of pa sa p ≡ some id))
          ⊎ ((k ≡ native) × (alias kusama p ≡ some id))))
unfolding given
rights_at pa sa l p k id n = ground arith

place_at-parent : (n : ℕ) (i : Junctions) → (place_at n i ≡ parent) ↔ ((n ≡ 1) × (i ≡ here))
place_at-parent n i = ground arith

place_of-parent : (l : MultiLocation) → (place_of l ≡ parent) ↔ (l ≡ parent_location)
place_of-parent l =
    let (is, back) = place_at-parent l.parents l.interior in
    (
      λ e. let (n, i) = is e in λ t. record { parents = n t; interior = i t },
      λ e. back (ap (λ x. x.parents) e, ap (λ x. x.interior) e),
    )

module _ (C : Converters) (D : AreDocumented C) where
  pub location_to_account_id_lem :
      (l : MultiLocation)
      → location_to_account_id C l ≡ account_of D.parent_account D.sibling_account (place_of l)
  unfolding location_to_account_id
  location_to_account_id_lem l =
      simp
        (
          D.first_location_cons, D.first_location_nil, D.parent_is_preset_lem,
          D.sibling_converts_lem, D.aliases_lem,
        )
        (choose_account D.parent_account D.sibling_account (place_of l))

  first_step :
      {c : ConvertOrigin} {cs : List ConvertOrigin} {l : MultiLocation} {k : OriginKind}
      (o next : Option RuntimeOrigin)
      → c l k ≡ given l o
      → C.first_origin cs l k ≡ given l next
      → C.first_origin (c ∷ cs) l k ≡ given l (or_next o next)
  first_step {c} {cs} {l} {k} o next first rest =
      D.first_origin_cons c cs l k
      ∙ rw first (try_given l o next (λ l'. C.first_origin cs l' k) rest)

  origin_lem :
      (l : MultiLocation) (k : OriginKind)
      → xcm_origin_to_transact_dispatch_origin C l k
        ≡ given l (origin_of D.parent_account D.sibling_account l (place_of l) k)
  unfolding xcm_origin_to_transact_dispatch_origin
  origin_lem l k =
      let sovereign =
        D.sovereign_lem (location_to_account_id C) l k
        ∙ ap (λ a. given l (via_account a k)) (location_to_account_id_lem l) in
      first_step _ _ sovereign (
        first_step _ _ (D.relay_lem relay l k) (
          first_step _ _ (D.sibling_lem l k) (
            first_step _ _ (D.superuser_lem l k) (
              first_step _ _ (D.signed_lem kusama l k)
                (first_step _ _ (D.passthrough_lem l k) (D.first_origin_nil l k ∙ given-none l))))))
      ∙ ap (given l) (choose_origin D.parent_account D.sibling_account l (place_of l) k)

  -- An XCM origin is given the rights of root only if it is the relay chain and asks as superuser; those
  -- of the relay chain or of a sibling chain only if it is that chain and asks natively; and it signs as
  -- an account only as the sovereign account that its location converts to, or natively from that
  -- account's own location. All these are given then, and both runtimes give the same.
  pub origin_rights :
      (l : MultiLocation) (k : OriginKind) (id : AccountId) (n : ℕ)
      → let o = xcm_origin_to_transact_dispatch_origin C l k in
        ((o ≡ ok root) ↔ ((l ≡ parent_location) × (k ≡ superuser)))
        × ((o ≡ ok relay) ↔ ((l ≡ parent_location) × (k ≡ native)))
        × ((o ≡ ok (sibling_parachain n)) ↔ ((place_of l ≡ sibling n) × (k ≡ native)))
        × ((o ≡ ok (signed id)) ↔ (
            ((k ≡ sovereign_account) × (location_to_account_id C l ≡ some id))
            ⊎ ((k ≡ native) × (alias kusama (place_of l) ≡ some id))))
        × (shell_xcm_origin_to_transact_dispatch_origin C l k ≡ o)
  unfolding shell_xcm_origin_to_transact_dispatch_origin xcm_origin_to_transact_dispatch_origin
      shell_location_to_account_id location_to_account_id
  origin_rights l k id n =
      let pa = D.parent_account in
      let sa = D.sibling_account in
      let (as_root', as_relay', as_sibling', as_signed') = rights_at pa sa l (place_of l) k id n in
      let (is_parent, of_parent) = place_of-parent l in
      rw (origin_lem l k, location_to_account_id_lem l)
        (
          (
            λ e. let (p, q) = as_root'.0 e in (is_parent p, q),
            λ (p, q). as_root'.1 (of_parent p, q),
          ),
          (
            λ e. let (p, q) = as_relay'.0 e in (is_parent p, q),
            λ (p, q). as_relay'.1 (of_parent p, q),
          ),
          as_sibling',
          as_signed',
          refl,
        )
