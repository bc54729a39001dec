-- ===== src/Runtime/Shell.antt =====
-- The call filter of the shell (polkadot-parachains/shell-runtime/src/lib.rs). The calls of a pallet
-- that the filter does not name are kept apart by their encoding, read as one number.
pub mod Laws
use parachain.Base.{ℕ, Bool, true, false, not}

-- `pallet_vesting::Call`
pub data VestingCall : Type 0 where
  vested_transfer : ℕ → VestingCall
  other_vesting_call : ℕ → VestingCall

-- The shell's `RuntimeCall`: a constructor for each pallet of its `construct_runtime!` with calls.
pub data ShellCall : Type 0 where
  system parachain_system timestamp sudo balances : ℕ → ShellCall
  vesting : VestingCall → ShellCall
  xcmp_queue polkadot_xcm cumulus_xcm dmp_queue xcm_transactor : ℕ → ShellCall

moves_tokens : ShellCall → Bool
moves_tokens (balances _) = true
moves_tokens (vesting (vested_transfer _)) = true
moves_tokens _ = false

-- `DisableTokenTxFilter::contains`
unfoldable pub contains : ShellCall → Bool
unfolding moves_tokens
contains call = not (moves_tokens call)
