-- ===== src/Weights/Storage.antt =====
-- The storage accesses that the comments of the weight files document (`Storage:` and `Proof:` of
-- polkadot-parachains/integritee-runtime/src/weights), as data.
use parachain.Base.{
  ℕ, ◌+◌, ◌*◌, ◌&&◌, Bool, true, false, String, List, [], ◌∷◌, leb, ◌==◌, if◌then◌else◌,
}

-- An item with its reads and writes, its greatest size, and what an access to it adds to a proof; or
-- one of which the proof is skipped, as its size has no bound.
pub data Access : Type 0 where
  bounded : String → ℕ → ℕ → ℕ → ℕ → Access
  skipped : String → ℕ → ℕ → Access

abbrev pub reads_of : Access → ℕ
reads_of (bounded item r w size added) = r
reads_of (skipped item r w) = r

abbrev pub writes_of : Access → ℕ
writes_of (bounded item r w size added) = w
writes_of (skipped item r w) = w

-- Reads and writes in all.
abbrev pub total : List Access → ℕ × ℕ
total [] = (0, 0)
total (a ∷ l) = let (r, w) = total l in (reads_of a + r, writes_of a + w)

abbrev pub has_bound : Access → Bool
has_bound (bounded item r w size added) = true
has_bound (skipped item r w) = false

abbrev pub is_bounded : List Access → Bool
is_bounded [] = true
is_bounded (a ∷ l) = has_bound a && is_bounded l

abbrev pub max : ℕ → ℕ → ℕ
max a b = if leb a b then b else a

-- What the reads of an item add to the proof, and the greatest of these.
abbrev pub added_by : Access → ℕ
added_by (bounded item r w size added) = r * added
added_by (skipped item r w) = 0

abbrev pub greatest : List Access → ℕ
greatest [] = 0
greatest (a ∷ l) = max (added_by a) (greatest l)

-- The proof that is documented to be estimated: that of the item that adds most, with 990 bytes for
-- the path to it, and none where nothing is read.
abbrev pub proof_of : List Access → ℕ
proof_of l = if (total l).0 == 0 then 0 else 990 + greatest l
