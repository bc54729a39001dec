-- ===== src/Runtime/Shell/Laws.antt =====
-- What the shell's call filter admits, read against the pallets of its runtime.
use parachain.Base.{ℕ, ◌≡◌, refl, ◌↔◌, ◌⊎◌, inr, false, arith}
use parachain.Runtime.Pallets.{ShellPallet, shell_index}
use parachain.Runtime.Shell.{
  vested_transfer, other_vesting_call, ShellCall, system, parachain_system, timestamp, sudo,
  balances, vesting, xcmp_queue, polkadot_xcm, cumulus_xcm, dmp_queue, xcm_transactor, contains,
}

-- The pallet that a call is dispatched to.
abbrev pub pallet_of : ShellCall → ShellPallet
pallet_of (system _) = ShellPallet.system
pallet_of (parachain_system _) = ShellPallet.parachain_system
pallet_of (timestamp _) = ShellPallet.timestamp
pallet_of (sudo _) = ShellPallet.sudo
pallet_of (balances _) = ShellPallet.balances
pallet_of (vesting _) = ShellPallet.vesting
pallet_of (xcmp_queue _) = ShellPallet.xcmp_queue
pallet_of (polkadot_xcm _) = ShellPallet.polkadot_xcm
pallet_of (cumulus_xcm _) = ShellPallet.cumulus_xcm
pallet_of (dmp_queue _) = ShellPallet.dmp_queue
pallet_of (xcm_transactor _) = ShellPallet.xcm_transactor

-- The shell refuses a call exactly if it is dispatched to the pallet of index 10, `Balances`, or is
-- a vested transfer.
pub contains_refuses_iff :
    (call : ShellCall)
    → (contains call ≡ false)
      ↔ ((shell_index (pallet_of call) ≡ 10) ⊎ ((n : ℕ) × (call ≡ vesting (vested_transfer n))))
unfolding contains shell_index
contains_refuses_iff (vesting (vested_transfer n)) = (λ _. inr (n, refl), λ _. refl)
contains_refuses_iff (vesting (other_vesting_call n)) = ground arith
contains_refuses_iff call = ground arith
