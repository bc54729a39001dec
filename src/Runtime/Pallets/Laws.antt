-- ===== src/Runtime/Pallets/Laws.antt =====
-- Decoding by index, and the indices before and after an upgrade from the shell to the full runtime.
use parachain.Base.{◌≡◌, refl, ◌≢◌, ◌↔◌, Option, none, some, arith}
use mathlib.Core.Option.{some-injective}
use parachain.Runtime.Pallets.{Pallet, index, pallet_at, ShellPallet, sudo, shell_index}

-- Decoding a pallet's index gives that pallet.
pub pallet_at-index : (p : Pallet) → pallet_at (index p) ≡ some p
unfolding pallet_at
pallet_at-index Pallet.system = refl
pallet_at-index _ = refl

-- No two pallets share an index.
pub index_injective : (p q : Pallet) → index p ≡ index q → p ≡ q
index_injective p q h = some-injective _ _ (cc (pallet_at-index p, pallet_at-index q, h))

-- The pallet of the full runtime with the name of a shell pallet; `Sudo` has none.
unfoldable pub same_name : ShellPallet → Option Pallet
same_name ShellPallet.system = some Pallet.system
same_name ShellPallet.parachain_system = some Pallet.parachain_system
same_name ShellPallet.timestamp = some Pallet.timestamp
same_name ShellPallet.parachain_info = some Pallet.parachain_info
same_name sudo = none
same_name ShellPallet.balances = some Pallet.balances
same_name ShellPallet.transaction_payment = some Pallet.transaction_payment
same_name ShellPallet.vesting = some Pallet.vesting
same_name ShellPallet.aura = some Pallet.aura
same_name ShellPallet.aura_ext = some Pallet.aura_ext
same_name ShellPallet.xcmp_queue = some Pallet.xcmp_queue
same_name ShellPallet.polkadot_xcm = some Pallet.polkadot_xcm
same_name ShellPallet.cumulus_xcm = some Pallet.cumulus_xcm
same_name ShellPallet.dmp_queue = some Pallet.dmp_queue
same_name ShellPallet.xcm_transactor = some Pallet.xcm_transactor

-- An upgrade from the shell keeps the index of exactly the pallets other than `Sudo` and
-- `XcmTransactor`: what the shell encodes for a pallet is decoded by the full runtime as the pallet
-- of that name, if there is one.
pub pallet_at-shell_index_iff :
    (p : ShellPallet)
    → (pallet_at (shell_index p) ≡ same_name p) ↔ ((p ≢ sudo) × (p ≢ ShellPallet.xcm_transactor))
unfolding pallet_at shell_index same_name
pallet_at-shell_index_iff sudo = ground arith
pallet_at-shell_index_iff _ = ground arith
