-- ===== src/Tests/Service.antt =====
-- The node's services at a concrete host, whose engines count in the world how often they are built.
use parachain.Base.{
  Result, ℕ, ◌+◌, ◌≡◌, refl, true, false, none, some, List, [], ◌∷◌, ok, err, if◌then◌else◌, any,
  ◌==◌,
}
use parachain.Service.Lazy.{Builder, uninitialized, get_mut}
use parachain.Service.Lazy.Laws.{access, get_mut-access}
use parachain.Service.Consensus.{Host, Handle, State, has_aura, clone, produce_candidate, run}
use parachain.Service.Consensus.Builds.{wants_aura, run_builds}
use parachain.Service.Verifier.{Verifier, verify, verify_all}
use parachain.Service.Verifier.Laws.{view, verify-produce_candidate, verify_all_builds}
use parachain.Service.Queue.{aura_build_import_queue}
use parachain.Service.Queue.Laws.{all_answers, import_queue_answers}

-- The world is the number of engines built and the number of answers given; blocks have Aura from
-- number 10 on; an engine counts its own answers.
abbrev counting : Host
counting = record {
  World = ℕ × ℕ;
  Hash = ℕ;
  Request = ℕ;
  Answer = ℕ;
  ApiError = ℕ;
  Engine = ℕ;
  RelayEngine = ℕ;
  parent_hash = λ request. request;
  has_api = λ hash. ok (if hash == 10 then true else false);
  produce = λ e request (b, n). (request + e, e + 1, (b, n + 1));
  relay_produce = λ e request (b, n). (request, e, (b, n + 1));
}

abbrev build_one : Builder (ℕ × ℕ) ℕ
build_one (b, n) = (some 100, (b + 1, n))

abbrev build_none : Builder (ℕ × ℕ) ℕ
build_none (b, n) = (none, (b + 1, n))

abbrev handle : Handle
handle = record { aura_consensus = 4; relay_chain_consensus = 5 }

abbrev fresh : State counting
fresh = record {
  aura_cells = λ _. uninitialized (some build_one);
  relay_cells = λ _. 7;
  world = (0, 0);
}

abbrev calls : List (ℕ × ℕ)
calls = (1, 3) ∷ (2, 10) ∷ (0, 10) ∷ []

run_builds_example :
    (run counting handle calls fresh).1.world.0
    ≡ 0 + (if any (wants_aura counting) calls then 1 else 0)
run_builds_example =
    run_builds counting (λ w. w.0) build_one (λ w. refl) (λ e request w. refl) (λ e request w. refl)
      handle calls fresh refl

run_builds_once : (run counting handle calls fresh).1.world ≡ (1, 3)
unfolding run produce_candidate get_mut has_aura clone
run_builds_once = refl

verify-produce_candidate_example : verify counting 10 (view counting handle fresh) ≡ (
  (produce_candidate counting handle 10 fresh).0,
  view counting handle (produce_candidate counting handle 10 fresh).1,
)
verify-produce_candidate_example = verify-produce_candidate counting handle 10 fresh

abbrev fresh_verifier : Verifier counting
fresh_verifier = record {
  aura_verifier = uninitialized (some build_one);
  relay_chain_verifier = 7;
  world = (0, 0);
}

verify_all_builds_example :
    (verify_all counting (3 ∷ 10 ∷ 10 ∷ []) fresh_verifier).1.world.0
    ≡ 0 + (if any (λ b. has_aura counting b) (3 ∷ 10 ∷ 10 ∷ []) then 1 else 0)
verify_all_builds_example =
    verify_all_builds counting (λ w. w.0) build_one (λ w. refl) (λ e b w. refl) (λ e b w. refl)
      (3 ∷ 10 ∷ 10 ∷ []) fresh_verifier refl

-- The runtime of the best block names a slot duration, or does not know of one.
abbrev names_duration : ℕ × ℕ → Result ℕ ℕ
names_duration w = ok 12_000

abbrev names_none : ℕ × ℕ → Result ℕ ℕ
names_none w = err 1

abbrev build_counted : ℕ → ℕ × ℕ → ℕ × (ℕ × ℕ)
build_counted duration (b, n) = (100, (b + 1, n))

import_queue_answers_example :
    all_answers
      (verify_all counting
        (3 ∷ 10 ∷ 4 ∷ [])
        (aura_build_import_queue counting names_duration build_counted 7 (0, 0))).0
    ≡ true
import_queue_answers_example =
    import_queue_answers counting names_duration build_counted (λ w. (12_000, refl))
      (3 ∷ 10 ∷ 4 ∷ []) 7 (0, 0)

get_mut-access_example :
    get_mut 2 (uninitialized (some build_one)) (0, 0)
    ≡ access (uninitialized (some build_one)) (0, 0)
get_mut-access_example = get_mut-access 0 (uninitialized (some build_one)) (0, 0)
