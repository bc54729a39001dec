-- ===== src/Spec/Load.antt =====
-- `load_spec` and `is_shell` of polkadot-parachains/src/command.rs. Reading a JSON specification is
-- the job of `GenericChainSpec`, outside the repository: `Json` holds what it returns for the files
-- that are built in and for a path.
pub mod Table
pub mod Laws
use parachain.Base.{
  ℕ, Bool, true, false, String, Option, none, some, List, [], ◌∷◌, Result, ok, err, ◌>>=◌, str_eq,
  starts_with, if◌then◌else◌, holds,
}
use parachain.Spec.Relay.{RelayChain}
use parachain.Spec.Genesis.{
  GenesisKeys, IntegriteeGenesis, ShellGenesis, ChainSpec, shell_chain_spec, integritee_chain_spec,
}
use parachain.Spec.Load.Table.{
  Source, built_in_shell, built_in_integritee, fresh_shell, fresh_integritee, known_specs,
  lookup_id,
}

-- `Box<dyn ChainSpec>`: the type of the boxed specification, which fixes how its genesis is built.
pub data DynSpec : Type 0 where
  shell : ChainSpec ShellGenesis → DynSpec
  integritee : ChainSpec IntegriteeGenesis → DynSpec

abbrev pub name_of : DynSpec → String
name_of (shell s) = s.name
name_of (integritee s) = s.name

-- `IdentifyChain::is_shell`, by the name and not by the type.
unfoldable pub is_shell_name : String → Bool
is_shell_name name = starts_with name "Integritee Shell"

unfoldable pub is_shell : DynSpec → Bool
unfolding is_shell_name
is_shell s = is_shell_name (name_of s)

pub data LoadError : Type 0 where
  message : String → LoadError
  panic : String → LoadError

-- `from_json_bytes` on a built-in file and `from_json_file` on a path, at both types.
pub record Json : Type 0 where
  pub shell_bytes : String → Result LoadError (ChainSpec ShellGenesis)
  pub integritee_bytes : String → Result LoadError (ChainSpec IntegriteeGenesis)
  pub shell_file : String → Result LoadError (ChainSpec ShellGenesis)
  pub integritee_file : String → Result LoadError (ChainSpec IntegriteeGenesis)

module _ (wasm : Option (List ℕ)) (J : Json) where
  load_source : Source → Result LoadError DynSpec
  load_source (built_in_shell file) = J.shell_bytes file >>= λ s. ok (shell s)
  load_source (built_in_integritee file) = J.integritee_bytes file >>= λ s. ok (integritee s)
  load_source (fresh_shell id keys relay) = ok (shell (shell_chain_spec wasm id keys relay))
  load_source (fresh_integritee id keys relay) =
      ok (integritee (integritee_chain_spec wasm id keys relay))

  -- The last arm: the file is read as a full specification, and again if its name is a shell's.
  load_path : String → Result LoadError DynSpec
  unfolding is_shell
  load_path path = J.integritee_file path >>= λ chain_spec.
      if is_shell (integritee chain_spec)
      then (J.shell_file path >>= λ s. ok (shell s))
      else ok (integritee chain_spec)

  unfoldable pub load_spec : String → Result LoadError DynSpec
  unfolding load_source load_path
  load_spec id = elim (lookup_id id known_specs) [
    | some source ↦ load_source source
    | none ↦
        if str_eq id "" then err (panic "Please supply chain_spec to be loaded.") else load_path id
  ]
