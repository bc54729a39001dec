-- ===== src/Tests/Weights.antt =====
-- An instance of the documented weights, and runs of the weight functions on it.
use parachain.Base.{ℕ, ◌+◌, ◌*◌, ◌/◌, ◌≤◌, ◌≡◌, ◌↔◌, refl, false, arith}
use mathlib.Core.List.{Memᴰ}
use parachain.Runtime.BlockWeights.{
  maximum_block_weight, maximum_scheduler_weight, max_proposal_weight,
}
use parachain.Weights.Interface.{Weights, saturate, u64_saturating_mul, counting}
use parachain.Weights.Interface.Laws.{AreDocumented}
use parachain.Weights.System.Laws as System
use parachain.Weights.Treasury.Laws as Treasury
use parachain.Weights.Treasury.{on_initialize_proposals}
use parachain.Weights.Scheduler.Laws as Scheduler
use parachain.Weights.Functions.{Function, system, treasury, scheduler, weight, is_disabled}
use parachain.Weights.Storage.{Access, bounded, proof_of}
use parachain.Weights.Accesses.{accesses}
use parachain.Weights.Accesses.Laws.{
  weight-accesses, proof_size-accesses, proof_size-accesses_fixed,
}
use parachain.Weights.Functions.Laws.{FitsInto, proof_size-weight, weight_fits_iff}

-- Weights as pairs of `u64`, with the costs of RocksDB.
abbrev pub rocks_db : Weights
rocks_db = record {
  Weight = ℕ × ℕ;
  from_parts = λ t p. (t, p);
  saturating_add = λ a b. (saturate (a.0 + b.0), saturate (a.1 + b.1));
  saturating_mul = λ a n. (saturate (a.0 * n), saturate (a.1 * n));
  reads = λ n. (saturate (25_000_000 * n), 0);
  writes = λ n. (saturate (100_000_000 * n), 0);
  ref_time = λ a. a.0;
  proof_size = λ a. a.1;
}

abbrev pub documented : AreDocumented rocks_db
documented = record {
  read = 25_000_000;
  write = 100_000_000;
  ref_time-from_parts = λ t p. refl;
  proof_size-from_parts = λ t p. refl;
  ref_time-saturating_add = λ a b. refl;
  proof_size-saturating_add = λ a b. refl;
  ref_time-saturating_mul = λ a n. refl;
  proof_size-saturating_mul = λ a n. refl;
  ref_time-reads = λ n. refl;
  proof_size-reads = λ n. refl;
  ref_time-writes = λ n. refl;
  proof_size-writes = λ n. refl;
}

-- Ten proposals that are due.
abbrev proposals : Function
proposals = treasury (Treasury.on_initialize_proposals 10)

proposals_charged : weight rocks_db proposals ≡ (4_868_300_271, 55_653)
unfolding weight Treasury.weight on_initialize_proposals saturate u64_saturating_mul
proposals_charged = refl

-- Three keys are overwritten.
abbrev three_keys : Function
three_keys = system (System.kill_prefix 3)

weight-accesses_example : weight counting three_keys ≡ (0 + 3, 0 + 3)
weight-accesses_example = weight-accesses three_keys (omega arith)

proof_size-weight_example : rocks_db.proof_size (weight rocks_db proposals) ≡ 55_653
proof_size-weight_example = proof_size-weight rocks_db documented proposals (omega arith)

-- Ten proposals read 21 accounts, which add most.
abbrev accounts : Access
accounts = bounded "System Account" 21 21 128 2603

proof_size-accesses_example : 990 + 21 * 2603 ≤ rocks_db.proof_size (weight rocks_db proposals)
proof_size-accesses_example =
    proof_size-accesses rocks_db documented proposals (omega arith) refl refl accounts
      (Memᴰ.head refl) (omega arith)

-- A proposal that is made.
abbrev spend : Function
spend = treasury Treasury.spend

proof_size-accesses_fixed_example :
    rocks_db.proof_size (weight rocks_db spend) ≡ proof_of (accesses spend)
proof_size-accesses_fixed_example = proof_size-accesses_fixed rocks_db documented spend tt refl refl

-- A `Perbill` that rounds down.
abbrev part_of : ℕ → ℕ → ℕ
part_of parts value = parts * value / 1_000_000_000

-- The call of a preimage of the greatest size, which the agenda has no room for.
abbrev longest : Function
longest = scheduler (Scheduler.service_task_fetched 4_194_304)

weight_fits_iff_example :
    (FitsInto rocks_db documented
        (maximum_block_weight 1_000_000_000_000 5_242_880)
        (weight rocks_db longest)
      ↔ (is_disabled longest ≡ false))
    × (FitsInto rocks_db documented
          (maximum_scheduler_weight 1_000_000_000_000 5_242_880 part_of)
          (weight rocks_db longest)
        ↔ ((is_disabled longest ≡ false) × (4_194_304 ≤ 4_190_626)))
    × (FitsInto rocks_db documented
          (max_proposal_weight 1_000_000_000_000 5_242_880 part_of)
          (weight rocks_db longest)
        ↔ ((is_disabled longest ≡ false) × (4_194_304 ≤ 2_617_762)))
weight_fits_iff_example =
    weight_fits_iff rocks_db documented part_of (λ parts value part e. omega (arith, e)) refl refl
      (omega arith) (omega arith) longest (omega arith)
