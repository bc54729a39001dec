-- ===== src/Runtime/Pallets.antt =====
-- `construct_runtime!` of both runtimes: the pallets and their indices, which are the first byte of
-- an encoded call and part of an encoded event.
pub mod Laws
use parachain.Base.{ℕ, Option, none, some, List, [], ◌∷◌, ◌==◌, if◌then◌else◌}

-- The pallets of the Integritee runtime.
pub data Pallet : Type 0 where
  system parachain_system timestamp parachain_info : Pallet
  preimage multisig proxy scheduler utility : Pallet
  balances transaction_payment vesting : Pallet
  treasury democracy council technical_committee bounties child_bounties : Pallet
  aura aura_ext : Pallet
  xcmp_queue polkadot_xcm cumulus_xcm dmp_queue x_tokens orml_xcm xcm_transactor : Pallet
  teerex claims teeracle sidechain enclave_bridge : Pallet

unfoldable pub index : Pallet → ℕ
index system = 0
index parachain_system = 1
index timestamp = 3
index parachain_info = 4
index preimage = 5
index multisig = 6
index proxy = 7
index scheduler = 8
index utility = 9
index balances = 10
index transaction_payment = 11
index vesting = 12
index treasury = 13
index democracy = 14
index council = 15
index technical_committee = 16
index bounties = 18
index child_bounties = 19
index aura = 23
index aura_ext = 24
index xcmp_queue = 30
index polkadot_xcm = 31
index cumulus_xcm = 32
index dmp_queue = 33
index x_tokens = 34
index orml_xcm = 35
index xcm_transactor = 36
index teerex = 50
index claims = 51
index teeracle = 52
index sidechain = 53
index enclave_bridge = 54

-- The pallets in the order of `construct_runtime!`.
abbrev pub all_pallets : List Pallet
all_pallets =
    system ∷ parachain_system ∷ timestamp ∷ parachain_info ∷ preimage ∷ multisig ∷ proxy ∷ scheduler
    ∷ utility ∷ balances ∷ transaction_payment ∷ vesting ∷ treasury ∷ democracy ∷ council
    ∷ technical_committee ∷ bounties ∷ child_bounties ∷ aura ∷ aura_ext ∷ xcmp_queue ∷ polkadot_xcm
    ∷ cumulus_xcm ∷ dmp_queue ∷ x_tokens ∷ orml_xcm ∷ xcm_transactor ∷ teerex ∷ claims ∷ teeracle
    ∷ sidechain ∷ enclave_bridge ∷ []

-- The first pallet with an index, which a decoder picks.
find_index : List Pallet → ℕ → Option Pallet
find_index [] i = none
find_index (p ∷ ps) i = if index p == i then some p else find_index ps i

unfoldable pub pallet_at : ℕ → Option Pallet
unfolding index find_index
pallet_at = find_index all_pallets

-- The pallets of the shell runtime.
pub data ShellPallet : Type 0 where
  system parachain_system timestamp parachain_info sudo : ShellPallet
  balances transaction_payment vesting : ShellPallet
  aura aura_ext : ShellPallet
  xcmp_queue polkadot_xcm cumulus_xcm dmp_queue xcm_transactor : ShellPallet

unfoldable pub shell_index : ShellPallet → ℕ
shell_index ShellPallet.system = 0
shell_index ShellPallet.parachain_system = 1
shell_index ShellPallet.timestamp = 3
shell_index ShellPallet.parachain_info = 4
shell_index sudo = 5
shell_index ShellPallet.balances = 10
shell_index ShellPallet.transaction_payment = 11
shell_index ShellPallet.vesting = 12
shell_index ShellPallet.aura = 23
shell_index ShellPallet.aura_ext = 24
shell_index ShellPallet.xcmp_queue = 30
shell_index ShellPallet.polkadot_xcm = 31
shell_index ShellPallet.cumulus_xcm = 32
shell_index ShellPallet.dmp_queue = 33
shell_index ShellPallet.xcm_transactor = 34
