-- ===== src/Runtime/Upgrade/Laws.antt =====
-- What an upgrade from the shell to the full runtime keeps.
use parachain.Base.{ℕ, ◌<◌, ◌≡◌, refl, arith, true, false}
use parachain.Runtime.Periods.{minimum_period}
use parachain.Runtime.BlockWeights.{
  reserved_xcmp_weight, reserved_dmp_weight, runtime_block_weights,
}
use parachain.Runtime.Upgrade.{
  balances_parameters, shell_balances_parameters, min_vested_transfer, shell_min_vested_transfer,
  shell_minimum_period, shell_reserved_xcmp_weight, shell_reserved_dmp_weight, system_parameters,
  shell_system_parameters, signed_extra, shell_signed_extra,
}
use parachain.Spec.Load.{DynSpec, is_shell}
use parachain.Command.Run.{
  shell_runtime, integritee_runtime, RuntimeVersion, native_runtime_version, runtime_of,
  shell_version, integritee_version,
}

-- What is documented of `set_code`: the new code is taken if its specification has the same name and a
-- greater version.
abbrev pub CanReplace : RuntimeVersion → RuntimeVersion → Type 0
CanReplace old new = (new.spec_name ≡ old.spec_name) × (old.spec_version < new.spec_version)

shell_of_runtime : (s : DynSpec) → runtime_of s ≡ shell_runtime → is_shell s ≡ true
unfolding runtime_of
shell_of_runtime s h = ground arith

full_of_runtime : (s : DynSpec) → runtime_of s ≡ integritee_runtime → is_shell s ≡ false
unfolding runtime_of
full_of_runtime s h = ground arith

-- The native version that the node names for a shell's specification can be replaced by the one for a
-- specification of the full runtime, and not the other way round; the two are the versions of the
-- runtimes that the node works with. The upgrade keeps the limits of a block, the weights reserved
-- for messages, the prefix of addresses, the existential deposit, the constants of the fees of a
-- transfer, a creation and a byte of a transaction, the limits on locks and reserves, the minimum
-- period between blocks and what a transaction signs; a smaller vested transfer is allowed after it.
pub upgrade_keeps :
    (before after : DynSpec)
    → runtime_of before ≡ shell_runtime
    → runtime_of after ≡ integritee_runtime
    → (second pov : ℕ) (mul : ℕ → ℕ → ℕ)
    → CanReplace (native_runtime_version before) (native_runtime_version after)
      × (¬ CanReplace (native_runtime_version after) (native_runtime_version before))
      × (system_parameters second pov mul ≡ shell_system_parameters second pov mul)
      × (balances_parameters ≡ shell_balances_parameters)
      × (reserved_xcmp_weight second pov ≡ shell_reserved_xcmp_weight second pov)
      × (reserved_dmp_weight second pov ≡ shell_reserved_dmp_weight second pov)
      × (minimum_period ≡ shell_minimum_period)
      × (signed_extra ≡ shell_signed_extra)
      × (min_vested_transfer < shell_min_vested_transfer)
unfolding system_parameters shell_system_parameters balances_parameters shell_balances_parameters
    min_vested_transfer shell_min_vested_transfer signed_extra shell_signed_extra
    runtime_block_weights runtime_of native_runtime_version shell_version integritee_version
upgrade_keeps before after shell full second pov mul =
    let b = shell_of_runtime before shell in
    let a = full_of_runtime after full in
    rw (b, a)
      (
        (refl, omega arith),
        λ h. omega (arith, h.1),
        refl,
        refl,
        refl,
        refl,
        refl,
        refl,
        omega arith,
      )
