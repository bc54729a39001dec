-- ===== src/Xcm/Origins/Places.antt =====
-- What the converters of the library are documented to do, by the place that a location names: the
-- hypotheses on `Converters`, and the account and the origin of a place.
use parachain.Base.{
  ℕ, ◌≡◌, Bool, true, List, [], ◌∷◌, Option, none, some, Result, ok, err, ◌==◌, if◌then◌else◌,
  holds,
}
use parachain.Xcm.Location.{
  NetworkId, kusama, NetworkId-discrete, Junctions, here, x1, para_chain, account_id32,
  MultiLocation,
}
use parachain.Xcm.Origins.{
  OriginKind, native, sovereign_account, superuser, xcm, AccountId, RuntimeOrigin, root, signed,
  relay, sibling_parachain, xcm_origin, ConvertLocation, ConvertOrigin, Converters,
}

-- The kinds of location that mean something here: the relay chain, a sibling chain, and an account,
-- with no network or a given one.
pub data Place : Type 0 where
  parent : Place
  sibling : ℕ → Place
  account : Option NetworkId → AccountId → Place
  elsewhere : Place

abbrev pub place_at : ℕ → Junctions → Place
place_at parents here = if parents == 1 then parent else elsewhere
place_at parents (x1 (para_chain id)) = if parents == 1 then sibling id else elsewhere
place_at parents (x1 (account_id32 network id)) =
    if parents == 0 then account network id else elsewhere
place_at parents _ = elsewhere

abbrev pub place_of : MultiLocation → Place
place_of l = place_at l.parents l.interior

-- An account of no network, or of the one that is given.
unfoldable pub in_network : NetworkId → Option NetworkId → Bool
unfolding NetworkId-discrete
in_network network none = true
in_network network (some other) = holds (NetworkId-discrete other network)

-- What the converters are documented to give, by the place.
abbrev pub preset : AccountId → Place → Option AccountId
preset id parent = some id
preset id _ = none

abbrev pub derived : (ℕ → AccountId) → Place → Option AccountId
derived of_sibling (sibling id) = some (of_sibling id)
derived of_sibling _ = none

abbrev pub alias : NetworkId → Place → Option AccountId
alias network (account n id) = if in_network network n then some id else none
alias network _ = none

abbrev pub or_next : {A : Type 0} → Option A → Option A → Option A
or_next (some a) next = some a
or_next none next = next

abbrev pub via_account : Option AccountId → OriginKind → Option RuntimeOrigin
via_account (some id) sovereign_account = some (signed id)
via_account _ _ = none

abbrev pub as_relay : RuntimeOrigin → Place → OriginKind → Option RuntimeOrigin
as_relay o parent native = some o
as_relay o _ _ = none

abbrev pub as_sibling : Place → OriginKind → Option RuntimeOrigin
as_sibling (sibling id) native = some (sibling_parachain id)
as_sibling _ _ = none

abbrev pub as_root : Place → OriginKind → Option RuntimeOrigin
as_root parent superuser = some root
as_root _ _ = none

abbrev pub as_signed : NetworkId → Place → OriginKind → Option RuntimeOrigin
as_signed network (account n id) native = if in_network network n then some (signed id) else none
as_signed network _ _ = none

abbrev pub as_xcm : MultiLocation → OriginKind → Option RuntimeOrigin
as_xcm l xcm = some (xcm_origin l)
as_xcm l _ = none

-- A converter gives its origin, or the location back.
unfoldable pub given : MultiLocation → Option RuntimeOrigin → Result MultiLocation RuntimeOrigin
given l (some o) = ok o
given l none = err l

abbrev pub try_next :
    Result MultiLocation RuntimeOrigin
    → (MultiLocation → Result MultiLocation RuntimeOrigin)
    → Result MultiLocation RuntimeOrigin
try_next (ok o) next = ok o
try_next (err l) next = next l

pub record AreDocumented (C : Converters) : Type 0 where
  pub parent_account : AccountId
  pub sibling_account : ℕ → AccountId
  pub first_location_nil : (l : MultiLocation) → C.first_location [] l ≡ none
  pub first_location_cons :
      (c : ConvertLocation) (cs : List ConvertLocation) (l : MultiLocation)
      → C.first_location (c ∷ cs) l ≡ or_next (c l) (C.first_location cs l)
  pub parent_is_preset_lem :
      (l : MultiLocation) → C.parent_is_preset l ≡ preset parent_account (place_of l)
  pub sibling_converts_lem :
      (l : MultiLocation)
      → C.sibling_parachain_converts_via l ≡ derived sibling_account (place_of l)
  pub aliases_lem :
      (network : NetworkId) (l : MultiLocation)
      → C.account_id32_aliases network l ≡ alias network (place_of l)
  pub first_origin_nil : (l : MultiLocation) (k : OriginKind) → C.first_origin [] l k ≡ err l
  pub first_origin_cons :
      (c : ConvertOrigin) (cs : List ConvertOrigin) (l : MultiLocation) (k : OriginKind)
      → C.first_origin (c ∷ cs) l k ≡ try_next (c l k) (λ l'. C.first_origin cs l' k)
  pub sovereign_lem :
      (f : ConvertLocation) (l : MultiLocation) (k : OriginKind)
      → C.sovereign_signed_via_location f l k ≡ given l (via_account (f l) k)
  pub relay_lem :
      (o : RuntimeOrigin) (l : MultiLocation) (k : OriginKind)
      → C.relay_chain_as_native o l k ≡ given l (as_relay o (place_of l) k)
  pub sibling_lem :
      (l : MultiLocation) (k : OriginKind)
      → C.sibling_parachain_as_native l k ≡ given l (as_sibling (place_of l) k)
  pub superuser_lem :
      (l : MultiLocation) (k : OriginKind)
      → C.parent_as_superuser l k ≡ given l (as_root (place_of l) k)
  pub signed_lem :
      (network : NetworkId) (l : MultiLocation) (k : OriginKind)
      → C.signed_account_id32_as_native network l k ≡ given l (as_signed network (place_of l) k)
  pub passthrough_lem :
      (l : MultiLocation) (k : OriginKind) → C.xcm_passthrough l k ≡ given l (as_xcm l k)

-- The account of a place, and the origin of a place and a kind, written out.
abbrev pub account_of : AccountId → (ℕ → AccountId) → Place → Option AccountId
account_of parent_account sibling_account parent = some parent_account
account_of parent_account sibling_account (sibling id) = some (sibling_account id)
account_of parent_account sibling_account (account n id) =
    if in_network kusama n then some id else none
account_of parent_account sibling_account elsewhere = none

abbrev pub origin_of :
    AccountId → (ℕ → AccountId) → MultiLocation → Place → OriginKind → Option RuntimeOrigin
origin_of parent_account sibling_account l place sovereign_account =
    via_account (account_of parent_account sibling_account place) sovereign_account
origin_of parent_account sibling_account l parent native = some relay
origin_of parent_account sibling_account l (sibling id) native = some (sibling_parachain id)
origin_of parent_account sibling_account l (account n id) native =
    if in_network kusama n then some (signed id) else none
origin_of parent_account sibling_account l elsewhere native = none
origin_of parent_account sibling_account l parent superuser = some root
origin_of parent_account sibling_account l _ superuser = none
origin_of parent_account sibling_account l place xcm = some (xcm_origin l)
