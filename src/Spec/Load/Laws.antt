-- ===== src/Spec/Load/Laws.antt =====
-- What an id loads: the two ways of telling a shell, and the keys and runtimes of live chains.
use parachain.Base.{
  ℕ, ◌≡◌, refl, subst, sym, ap, ◌∙◌, ◌≢◌, inl, inr, Bool, true, false, not, ◌&&◌, ◌||◌, String,
  Option, some, List, [], ◌∷◌, Result, ok, err, ◌>>=◌, str_eq, if◌then◌else◌, Bool-cases,
  Option-cases, any, arith,
}
use parachain.Spec.Relay.{RelayChain, moonbase, live, local, chain_type}
use parachain.Spec.Genesis.{
  GenesisKeys, well_known, integritee_dev, IntegriteeGenesis, ShellGenesis, ChainSpec,
  shell_chain_spec, integritee_chain_spec,
}
use parachain.Spec.Load.Table.{
  Source, built_in_shell, built_in_integritee, fresh_shell, fresh_integritee, known_specs,
  lookup_id,
}
use parachain.Spec.Load.{
  DynSpec, shell, integritee, is_shell_name, is_shell, LoadError, Json, load_source, load_path,
  load_spec,
}

abbrev pub has_shell_type : DynSpec → Bool
has_shell_type (shell s) = true
has_shell_type (integritee s) = false

abbrev pub is_built_in : Option Source → Bool
is_built_in (some (built_in_shell file)) = true
is_built_in (some (built_in_integritee file)) = true
is_built_in _ = false

-- A JSON file has one name, at whichever type it is read.
abbrev pub HaveOneName : Json → Type 0
HaveOneName J =
    (path : String) (a : ChainSpec ShellGenesis) (b : ChainSpec IntegriteeGenesis)
    → J.shell_file path ≡ ok a
    → J.integritee_file path ≡ ok b
    → a.name ≡ b.name

-- What is to be shown of a loaded specification.
abbrev Agrees : Result LoadError DynSpec → Type 0
Agrees (ok s) = is_shell s ≡ has_shell_type s
Agrees (err e) = Unit

module _ (wasm : Option (List ℕ)) (J : Json) where
  load_source-Agrees :
      (source : Source) → is_built_in (some source) ≡ false → Agrees (load_source wasm J source)
  unfolding load_source is_shell shell_chain_spec integritee_chain_spec
  load_source-Agrees (built_in_shell file) b = cc
  load_source-Agrees (built_in_integritee file) b = cc
  load_source-Agrees (fresh_shell id keys relay) b = refl
  load_source-Agrees (fresh_integritee id keys relay) b = refl

  module _ (one_name : HaveOneName J) where
    again_as_shell :
        (path : String) (full : ChainSpec IntegriteeGenesis)
        (r : Result LoadError (ChainSpec ShellGenesis))
        → J.integritee_file path ≡ ok full
        → J.shell_file path ≡ r
        → is_shell (integritee full) ≡ true
        → Agrees (r >>= λ s. ok (shell s))
    unfolding is_shell
    again_as_shell path full (err e) f s named = tt
    again_as_shell path full (ok spec) f s named =
        ap is_shell_name (one_name path spec full s f) ∙ named

    after_full :
        (path : String) (r : Result LoadError (ChainSpec IntegriteeGenesis))
        → J.integritee_file path ≡ r
        → Agrees (
            r >>= λ full.
            if is_shell (integritee full)
            then (J.shell_file path >>= λ s. ok (shell s))
            else ok (integritee full))
    after_full path (err e) f = tt
    after_full path (ok full) f = elim (Bool-cases (is_shell (integritee full))) [
      | inl named ↦ rw (named, Agrees) (again_as_shell path full (J.shell_file path) f refl named)
      | inr other ↦ rw (other, Agrees) other
    ]

    load_path-Agrees : (path : String) → Agrees (load_path wasm J path)
    unfolding load_path
    load_path-Agrees path = after_full path (J.integritee_file path) refl

    load_spec-Agrees :
        (id : String)
        → is_built_in (lookup_id id known_specs) ≡ false
        → Agrees (load_spec wasm J id)
    unfolding load_spec
    load_spec-Agrees id fresh = elim (Option-cases (lookup_id id known_specs)) [
      | inl unknown ↦
          rw (unknown, Agrees)
            (elim (Bool-cases (str_eq id "")) [
              | inl empty ↦ rw (empty, Agrees) tt
              | inr path ↦ rw (path, Agrees) (load_path-Agrees id)
            ])
      | inr (source, known) ↦
          rw (known, Agrees) (load_source-Agrees source (ap is_built_in (sym known) ∙ fresh))
    ]

    -- Whatever is loaded by an id that names no built-in file, a path to a file included, is built
    -- with the shell's genesis type exactly when its name says that it is a shell, by which the node
    -- picks the runtime later.
    pub load_spec-is_shell :
        (id : String) {s : DynSpec}
        → is_built_in (lookup_id id known_specs) ≡ false
        → load_spec wasm J id ≡ ok s
        → is_shell s ≡ has_shell_type s
    load_spec-is_shell id fresh loaded = subst Agrees loaded (load_spec-Agrees id fresh)

-- A test that every known specification passes is passed by the one that an id names.
lookup_id_passes :
    (test : Source → Bool) (specs : List (String × Source)) (id : String) (source : Source)
    → any (λ (known, s). not (test s)) specs ≡ false
    → lookup_id id specs ≡ some source
    → test source ≡ true
unfolding lookup_id
lookup_id_passes test [] id source passed found = cc
lookup_id_passes test ((known, first) ∷ specs) id source passed found =
    ground (arith, lookup_id_passes test specs id source)

-- Where a generated specification comes from: its keys and its relay chain.
pub data Generates : Source → GenesisKeys → RelayChain → Type 0 where
  a_shell :
      (id : ℕ) (keys : GenesisKeys) (relay : RelayChain)
      → Generates (fresh_shell id keys relay) keys relay
  a_full :
      (id : ℕ) (keys : GenesisKeys) (relay : RelayChain)
      → Generates (fresh_integritee id keys relay) keys relay

abbrev is_live : RelayChain → Bool
is_live r = elim (chain_type r) [ local ↦ false | live ↦ true ]

abbrev is_well_known : GenesisKeys → Bool
is_well_known well_known = true
is_well_known _ = false

abbrev has_own_keys : Source → Bool
has_own_keys (fresh_shell id keys relay) = not (is_live relay && is_well_known keys)
has_own_keys (fresh_integritee id keys relay) = not (is_live relay && is_well_known keys)
has_own_keys _ = true

all_own_keys : any (λ (known, s). not (has_own_keys s)) known_specs ≡ false
unfolding known_specs chain_type
all_own_keys = refl

-- No id generates a specification for a live relay chain from the well known keys of the keyring.
pub live_own_keys :
    (id : String) {source : Source} {keys : GenesisKeys} {relay : RelayChain}
    → lookup_id id known_specs ≡ some source
    → Generates source keys relay
    → chain_type relay ≡ live
    → keys ≢ well_known
live_own_keys id known (a_shell n keys relay) on_live dev = ground (
  arith,
  lookup_id_passes has_own_keys known_specs id (fresh_shell n keys relay) all_own_keys known,
)
live_own_keys id known (a_full n keys relay) on_live dev = ground (
  arith,
  lookup_id_passes has_own_keys known_specs id (fresh_integritee n keys relay) all_own_keys known,
)

abbrev is_moonbase : RelayChain → Bool
is_moonbase moonbase = true
is_moonbase _ = false

abbrev is_dev : GenesisKeys → Bool
is_dev integritee_dev = true
is_dev _ = false

abbrev is_shell_or_moonbase : Source → Bool
is_shell_or_moonbase (fresh_integritee id keys relay) =
    not (is_live relay) || (is_moonbase relay && is_dev keys)
is_shell_or_moonbase _ = true

all_shell_or_moonbase : any (λ (known, s). not (is_shell_or_moonbase s)) known_specs ≡ false
unfolding known_specs chain_type
all_shell_or_moonbase = refl

-- The full runtime is generated for one live relay chain only, Moonbase, and then with the
-- development keys; all other live chains start from the shell.
pub live_full_runtime :
    (id : String) {para_id : ℕ} {keys : GenesisKeys} {relay : RelayChain}
    → lookup_id id known_specs ≡ some (fresh_integritee para_id keys relay)
    → chain_type relay ≡ live
    → (relay ≡ moonbase) × (keys ≡ integritee_dev)
live_full_runtime id {para_id} {keys} {relay} known on_live = ground (
  arith,
  lookup_id_passes is_shell_or_moonbase known_specs id (fresh_integritee para_id keys relay)
      all_shell_or_moonbase known,
)
