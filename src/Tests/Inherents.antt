-- ===== src/Tests/Inherents.antt =====
-- The check of inherents where proofs hold a slot or none, and a block is its time.
use parachain.Base.{
  ℕ, ◌+◌, ◌*◌, ◌/◌, ◌≤◌, ◌<◌, ◌≡◌, ◌⊎◌, refl, Bool, Option, some, none, Result, ok, err, String,
  arith, leb, true,
}
use parachain.Runtime.Periods.{slot_duration}
use parachain.Runtime.Inherents.{Outside, check_inherents}
use parachain.Runtime.Inherents.Laws.{Timestamps, check_inherents_authored}
use parachain.Service.Aura.{Clock, create_inherent_data_providers}

-- A proof may hold a slot. A block passes if its time is at most 30 seconds after the data's.
abbrev read_relay_slot : Option ℕ → Result String ℕ
read_relay_slot none = err "no slot"
read_relay_slot (some n) = ok n

abbrev outside : Outside
outside = record {
  Proof = Option ℕ;
  ReadError = String;
  read_slot = read_relay_slot;
  Provider = ℕ;
  from_relay_chain_slot_and_duration = λ slot duration. (slot + 1) * duration;
  InherentData = ℕ;
  DataError = String;
  create_inherent_data = λ t. ok t;
  Block = ℕ;
  CheckInherentsResult = Bool;
  check_extrinsics = λ t block. leb block (t + 30_000);
}

starts_next_slot :
    (slot duration : ℕ) {t : ℕ}
    → ◌≡◌ {A = Result String ℕ} (ok ((slot + 1) * duration)) (ok t)
    → t ≡ (slot + 1) * duration
starts_next_slot slot duration e = cc

abbrev timestamps : Timestamps outside
timestamps = record { timestamp = λ t. t; timestamp_of = starts_next_slot }

refused : check_inherents outside 0 none ≡ err "Could not read the relay chain slot from the proof"
unfolding check_inherents
refused = refl

checked : check_inherents outside 31_000 (some 5) ≡ ok true
unfolding check_inherents
checked = refl

abbrev clock : Clock
clock = record { from_system_time = 31_000; slot_of = λ t d. t / d }

authored : create_inherent_data_providers ℕ clock slot_duration (some 9) ≡ ok (2, 31_000, 9)
unfolding create_inherent_data_providers
authored = refl

check_inherents_authored_example :
    (given : ℕ) × (leb 31_000 (given + 30_000) ≡ true)
    × (31_000 < given)
    × (given ≤ 31_000 + 6_000)
    × ((given / 12_000 ≡ 2) ⊎ (given / 12_000 ≡ 2 + 1))
check_inherents_authored_example =
    check_inherents_authored outside timestamps 31_000 (some 5) clock (λ t d. refl) (some 9)
      authored refl (omega arith) (omega arith) checked
