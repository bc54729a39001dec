-- ===== src/Service/Lazy/Laws.antt =====
-- What `get_mut` (polkadot-parachains/src/service.rs) does to a cell, also after a panic.
use parachain.Base.{ℕ, suc, ◌≡◌, refl, Option-cases, inl, inr, none, some, arith}
use parachain.Service.Lazy.{
  Builder, BuildOnAccess, uninitialized, initialized, Access, value, panicked, get_mut, turns,
}

module _ {World R : Type 0} where
  -- What a call does to a cell and the world, with no loop and no fuel.
  unfoldable pub access : BuildOnAccess World R → World → Access R × BuildOnAccess World R × World
  access (initialized r) w = (value r, initialized r, w)
  access (uninitialized none) w = (panicked, uninitialized none, w)
  access (uninitialized (some f)) w = elim (f w).0 [
    | some r ↦ (value r, initialized r, (f w).1)
    | none ↦ (panicked, uninitialized none, (f w).1)
  ]

  -- With two turns or more the loop ends: it returns the value that is held, or builds, keeps and
  -- returns it, or panics if the builder does or was taken before.
  pub get_mut-access :
      (fuel : ℕ) (self : BuildOnAccess World R) (w : World)
      → get_mut (suc (suc fuel)) self w ≡ access self w
  unfolding get_mut access
  get_mut-access fuel (initialized r) w = refl
  get_mut-access fuel (uninitialized none) w = refl
  get_mut-access fuel (uninitialized (some f)) w = ground arith

  -- A cell whose builder has been used: it holds a value, or the builder panicked.
  abbrev pub IsUsed : BuildOnAccess World R → Type 0
  IsUsed (initialized r) = Unit
  IsUsed (uninitialized none) = Unit
  IsUsed (uninitialized (some f)) = ⊥

  -- Once a builder has panicked, every later access panics too, changes nothing and builds nothing.
  pub get_mut_after_panic :
      (fuel : ℕ) (f : Builder World R) (w v : World)
      → (f w).0 ≡ none
      → get_mut (suc (suc fuel)) (get_mut turns (uninitialized (some f)) w).1 v
        ≡ (panicked, uninitialized none, v)
  unfolding access
  get_mut_after_panic fuel f w v h = rw (
    get_mut-access 0 (uninitialized (some f)) w,
    h,
    access,
    get_mut-access fuel (uninitialized none) v,
  )

  -- Once the builder has been used, an access leaves the cell and the world alone.
  pub access_of_IsUsed :
      (cell : BuildOnAccess World R) (w : World)
      → IsUsed cell
      → ((access cell w).1 ≡ cell) × ((access cell w).2 ≡ w)
  unfolding access
  access_of_IsUsed (initialized r) w u = (refl, refl)
  access_of_IsUsed (uninitialized none) w u = (refl, refl)
  access_of_IsUsed (uninitialized (some f)) w u = absurd u

  -- Whatever the builder does, it runs once and the cell is used afterwards.
  pub access_fresh :
      (f : Builder World R) (w : World)
      → let (a, cell, w') = access (uninitialized (some f)) w in IsUsed cell × (w' ≡ (f w).1)
  unfolding access
  access_fresh f w = elim (Option-cases (f w).0) [
    | inl e ↦ rw (access, IsUsed, e) (tt, refl)
    | inr (r, e) ↦ rw (access, IsUsed, e) (tt, refl)
  ]
