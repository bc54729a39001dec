-- ===== src/Tests/Rpc.antt =====
-- The node's methods where a module of methods is the list of their names.
use parachain.Base.{
  Bool, any, str_eq, eq_iff, ap, ◌∙◌, ◌||◌, ◌≡◌, refl, ◌↔◌, inl, inr, true, false, String, List, [],
  ◌∷◌, ◌++◌, Result, ok, err, if◌then◌else◌, Bool-cases, arith,
}
use parachain.Service.Rpc.{Outside, FullDeps, create_full}
use parachain.Service.Rpc.Laws.{Apart, IsDocumented, create_full_iff}

abbrev have_shared : List String → List String → Bool
have_shared names others = any (λ n. any (str_eq n) others) names

abbrev merge_names : List String → List String → Result String (List String)
merge_names a b = if have_shared a b then err "already registered" else ok (a ++ b)

abbrev names : Outside
names = record {
  Client = Unit {0};
  Pool = Unit {0};
  Backend = Unit {0};
  RpcModule = List String;
  Error = String;
  new_module = [];
  merge = merge_names;
  system = λ client pool deny_unsafe. "system_accountNextIndex" ∷ "system_dryRun" ∷ [];
  transaction_payment = λ client. "payment_queryInfo" ∷ [];
  state_migration = λ client backend deny_unsafe. "state_trieMigrationStatus" ∷ [];
}

abbrev has : List String → String → Bool
has m n = any (str_eq n) m

-- Lists that share no name have none in common, one by one.
apart_of_shared :
    (a b : List String) → have_shared a b ≡ false → (n : String) → has a n ≡ true → has b n ≡ false
apart_of_shared [] b h n e = cc
apart_of_shared (x ∷ a) b h n e = elim (Bool-cases (str_eq n x)) [
  | inl same ↦ let at : n ≡ x = (eq_iff n x).0 same in ap (has b) at ∙ ground (arith, h)
  | inr other ↦ apart_of_shared a b (ground (arith, h)) n (ground (arith, e, other))
]

shared_of_apart :
    (a b : List String)
    → ((n : String) → has a n ≡ true → has b n ≡ false)
    → have_shared a b ≡ false
shared_of_apart [] b apart = refl
shared_of_apart (x ∷ a) b apart =
    let itself : str_eq x x ≡ true = (eq_iff x x).1 refl in
    let first : has b x ≡ false = apart x (rw itself refl) in
    let rest = shared_of_apart a b (λ n e. apart n (ground (arith, e))) in rw (first, rest) refl

merge_names_iff :
    (a b : List String) → ((c : List String) × (merge_names a b ≡ ok c)) ↔ Apart (has a) (has b)
merge_names_iff a b = elim (Bool-cases (have_shared a b)) [
  | inl shared ↦ (rw shared (λ h. cc), λ apart. let none_shared = shared_of_apart a b apart in cc)
  | inr apart ↦ (λ h. apart_of_shared a b apart, λ h. (a ++ b, rw apart refl))
]

has-append : (a b : List String) (n : String) → has (a ++ b) n ≡ has a n || has b n
has-append [] b n = refl
has-append (x ∷ a) b n = let rest = has-append a b n in ground (arith, rest)

merge_names_ok :
    (a b : List String) {c : List String}
    → merge_names a b ≡ ok c
    → (n : String) → has c n ≡ has a n || has b n
merge_names_ok a b {c} m n =
    let all : c ≡ a ++ b = ground arith in ap (λ l. has l n) all ∙ has-append a b n

abbrev documented : IsDocumented names
documented = record {
  has = has;
  has-new = λ n. refl;
  merge_iff = merge_names_iff;
  has-merge = merge_names_ok;
}

abbrev deps : FullDeps names
deps = record { client = tt; pool = tt; deny_unsafe = true }

abbrev system : List String
system = "system_accountNextIndex" ∷ "system_dryRun" ∷ []

abbrev payment : List String
payment = "payment_queryInfo" ∷ []

abbrev migration : List String
migration = "state_trieMigrationStatus" ∷ []

create_full_iff_example :
    ((served : List String) × (create_full names deps tt ≡ ok served)
      × ((n : String) → has served n ≡ (has system n || has payment n) || has migration n))
    ↔ (Apart (has system) (has payment)
        × Apart (has system) (has migration)
        × Apart (has payment) (has migration))
create_full_iff_example = create_full_iff names documented deps tt
