-- ===== src/Service/Rpc.antt =====
-- `create_full` of polkadot-parachains/src/rpc.rs: the RPC methods of the node. Modules of methods and
-- the three services are of other crates: `Outside` holds what is used of them, and `merge` gives the
-- module that it leaves.
pub mod Laws
use parachain.Base.{Bool, Result, ok, ◌>>=◌}

pub record Outside : Type 1 where
  pub Client : Type 0
  pub Pool : Type 0
  pub Backend : Type 0
  pub RpcModule : Type 0
  pub Error : Type 0
  pub new_module : RpcModule
  pub merge : RpcModule → RpcModule → Result Error RpcModule
  pub system : Client → Pool → Bool → RpcModule
  pub transaction_payment : Client → RpcModule
  pub state_migration : Client → Backend → Bool → RpcModule

module _ (O : Outside) where
  pub record FullDeps : Type 0 where
    pub client : O.Client
    pub pool : O.Pool
    pub deny_unsafe : Bool

  unfoldable pub create_full : FullDeps → O.Backend → Result O.Error O.RpcModule
  create_full deps backend = do
    with_system ← O.merge O.new_module (O.system deps.client deps.pool deps.deny_unsafe)
    with_payment ← O.merge with_system (O.transaction_payment deps.client)
    with_migration ← O.merge with_payment (O.state_migration deps.client backend deps.deny_unsafe)
    ok with_migration
