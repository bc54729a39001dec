-- ===== src/Service/Rpc/Laws.antt =====
-- Which methods the node serves.
use parachain.Base.{
  ◌≡◌, ◌↔◌, refl, ap, sym, ◌∙◌, subst, Bool, true, false, ◌||◌, Bool-cases, inl, inr, String, ok,
  bind_iff, arith,
}
use parachain.Service.Rpc.{Outside, FullDeps, create_full}

-- No name is in both of two sets of names.
abbrev pub Apart : (String → Bool) → (String → Bool) → Type 0
Apart f g = (n : String) → f n ≡ true → g n ≡ false

abbrev pub union : (String → Bool) → (String → Bool) → String → Bool
union f g n = f n || g n

-- What is documented of `merge`: it fails exactly if the other module has a method of a name that is
-- taken, and otherwise adds the methods of the other module. They have no order.
pub record IsDocumented (O : Outside) : Type 0 where
  pub has : O.RpcModule → String → Bool
  pub has-new : (n : String) → has O.new_module n ≡ false
  pub merge_iff :
      (a b : O.RpcModule) → ((c : O.RpcModule) × (O.merge a b ≡ ok c)) ↔ Apart (has a) (has b)
  pub has-merge :
      (a b : O.RpcModule) {c : O.RpcModule}
      → O.merge a b ≡ ok c
      → (n : String) → has c n ≡ has a n || has b n

Apart-union_iff : (f g h : String → Bool) → Apart (union f g) h ↔ (Apart f h × Apart g h)
Apart-union_iff f g h = (
  λ apart. (λ n e. apart n (rw e refl), λ n e. apart n (ground (arith, e))),
  λ (left, right) n e. elim (Bool-cases (f n)) [
    | inl here ↦ left n here
    | inr elsewhere ↦ right n (ground (arith, e, elsewhere))
  ],
)

module _ (O : Outside) (D : IsDocumented O) where
  merge_names :
      {a b c : O.RpcModule} {names : String → Bool}
      → D.has a ≡ names
      → O.merge a b ≡ ok c
      → (D.has c ≡ union names (D.has b)) × Apart names (D.has b)
  merge_names {a} {b} {c} n m = (
    (λ i s. D.has-merge a b m s i) ∙ ap (λ f. union f (D.has b)) n,
    subst (λ f. Apart f (D.has b)) n ((D.merge_iff a b).0 (c, m)),
  )

  merge_apart :
      {a b : O.RpcModule} {names : String → Bool}
      → D.has a ≡ names
      → Apart names (D.has b)
      → (c : O.RpcModule) × (O.merge a b ≡ ok c) × (D.has c ≡ union names (D.has b))
  merge_apart {a} {b} n apart =
      let (c, m) = (D.merge_iff a b).1 (subst (λ f. Apart f (D.has b)) (sym n) apart) in
      (c, m, (merge_names n m).0)

  -- The node's methods can be served exactly if no two of the three services share a name. A method is
  -- then served exactly if it is one of the system's, the transaction payment's or the state
  -- migration's.
  pub create_full_iff :
      (deps : FullDeps O) (backend : O.Backend)
      → let system = D.has (O.system deps.client deps.pool deps.deny_unsafe) in
        let payment = D.has (O.transaction_payment deps.client) in
        let migration = D.has (O.state_migration deps.client backend deps.deny_unsafe) in
        ((served : O.RpcModule) × (create_full O deps backend ≡ ok served)
          × ((n : String) → D.has served n ≡ (system n || payment n) || migration n))
        ↔ (Apart system payment × Apart system migration × Apart payment migration)
  unfolding create_full
  create_full_iff deps backend =
      let system = O.system deps.client deps.pool deps.deny_unsafe in
      let payment = O.transaction_payment deps.client in
      let migration = O.state_migration deps.client backend deps.deny_unsafe in
      let (split, join) = Apart-union_iff (D.has system) (D.has payment) (D.has migration) in
      let new : D.has O.new_module ≡ (λ n. false) = λ i n. D.has-new n i in
      (
        λ (served, e, _).
            let (a, p, rest) = (bind_iff (O.merge O.new_module system) _ served).0 e in
            let (b, q, rest') = (bind_iff (O.merge a payment) _ served).0 rest in
            let (c, r, _) = (bind_iff (O.merge b migration) _ served).0 rest' in
            let first = merge_names new p in
            let second = merge_names first.0 q in
            let (left, right) = split (merge_names second.0 r).1 in (second.1, left, right),
        λ (apart, left, right).
            let (a, p, n) = merge_apart {b = system} new (λ s e. cc) in
            let (b, q, n') = merge_apart n apart in
            let (c, r, n'') = merge_apart n' (join (left, right)) in
            (c, rw (p, q, r) refl, λ s. ap (λ f. f s) n''),
      )
