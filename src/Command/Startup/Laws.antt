-- ===== src/Command/Startup/Laws.antt =====
-- What the flag against hardware benchmarks changes.
use parachain.Base.{
  ◌≡◌, refl, ap, ◌∙◌, ◌↔◌, ◌⊎◌, Bool, true, false, String, [], ◌∷◌, Option, none, some, arith,
}
use mathlib.Core.Option.{some-injective}
use parachain.Service.Node.{Settings, Outcomes, report_hwbench}
use parachain.Command.Startup.{create_dir_all, gather_hwbench, collect_hwbench}

abbrev pub is_some : {A : Type 0} → Option A → Bool
is_some none = false
is_some (some a) = true

-- The benchmarks are run, and the directory created, exactly where the database has a path, whether or
-- not the flag against them is set: the flag only drops what they found. The node is given a result
-- exactly without the flag and with a path, and reports nothing on the hardware otherwise.
pub collect_hwbench_iff :
    {HwBench Error : Type 0} (hwbench_at : String → HwBench) (flag : Bool) (path : Option String)
    (p : String) (b : HwBench) (s : Settings) (o : Outcomes Error)
    → let (found, effects) = collect_hwbench hwbench_at flag path in
      ((effects ≡ create_dir_all p ∷ gather_hwbench p ∷ []) ↔ (path ≡ some p))
      × ((effects ≡ []) ↔ (path ≡ none))
      × ((found ≡ some b)
          ↔ ((flag ≡ false) × ((q : String) × (path ≡ some q) × (hwbench_at q ≡ b))))
      × (((report_hwbench (record s { hwbench = is_some found }) o).1 ≡ [])
          ↔ ((flag ≡ true) ⊎ (path ≡ none)))
unfolding collect_hwbench report_hwbench
collect_hwbench_iff hwbench_at true none p b s o = ground arith
collect_hwbench_iff hwbench_at false none p b s o = ground arith
collect_hwbench_iff hwbench_at true (some q) p b s o = ground arith
collect_hwbench_iff hwbench_at false (some q) p b s o = (
  ground arith,
  ground arith,
  (
    λ e. (refl, (q, refl, some-injective _ _ e)),
    λ (_, (q', e, w)). let same : q ≡ q' = some-injective _ _ e in ap some (ap hwbench_at same ∙ w),
  ),
  ground arith,
)
