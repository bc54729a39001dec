-- ===== src/Runtime/Inherents.antt =====
-- `CheckInherents` of polkadot-parachains/integritee-runtime/src/lib.rs, and the shell's copy in
-- polkadot-parachains/shell-runtime/src/lib.rs: the check of a block's inherents by a validator of
-- the relay chain. The relay chain's state proof and the inherents are outside the repository:
-- `Outside` holds what is used of them, with durations in milliseconds.
pub mod Laws
use parachain.Base.{ℕ, ◌*◌, String, Result, ok, err, ◌>>=◌}

pub record Outside : Type 1 where
  pub Proof : Type 0
  pub ReadError : Type 0
  pub read_slot : Proof → Result ReadError ℕ
  pub Provider : Type 0
  pub from_relay_chain_slot_and_duration : ℕ → ℕ → Provider
  pub InherentData : Type 0
  pub DataError : Type 0
  pub create_inherent_data : Provider → Result DataError InherentData
  pub Block : Type 0
  pub CheckInherentsResult : Type 0
  pub check_extrinsics : InherentData → Block → CheckInherentsResult

-- `expect`: an error panics with the text that is given.
abbrev pub expect : {E A : Type 0} → String → Result E A → Result String A
expect text (ok a) = ok a
expect text (err e) = err text

abbrev pub seconds : ℕ → ℕ
seconds n = n * 1_000

module _ (O : Outside) where
  unfoldable pub check_inherents : O.Block → O.Proof → Result String O.CheckInherentsResult
  check_inherents block relay_state_proof = do
    relay_chain_slot ←
        expect "Could not read the relay chain slot from the proof" (O.read_slot relay_state_proof)
    inherent_data ←
        expect "Could not create the timestamp inherent data" (
          O.create_inherent_data
            (O.from_relay_chain_slot_and_duration relay_chain_slot (seconds 6)))
    ok (O.check_extrinsics inherent_data block)

  unfoldable pub shell_check_inherents : O.Block → O.Proof → Result String O.CheckInherentsResult
  shell_check_inherents block relay_state_proof = do
    relay_chain_slot ←
        expect "Could not read the relay chain slot from the proof" (O.read_slot relay_state_proof)
    inherent_data ←
        expect "Could not create the timestamp inherent data" (
          O.create_inherent_data
            (O.from_relay_chain_slot_and_duration relay_chain_slot (seconds 6)))
    ok (O.check_extrinsics inherent_data block)
