-- ===== src/Tests.antt =====
-- Small runs of the definitions and an instance of each theorem, one module per part.
mod Xcm
mod Origins
mod Barrier
mod Pallet
mod Tokens
mod Service
mod Node
mod Rpc
mod Runtime
mod Inherents
mod Spec
mod Command
mod Weights
mod Upgrade
mod Apis
mod Startup
