-- ===== src/Weights/EnclaveBridge/Storage.antt =====
-- The storage accesses and proof sizes that the comments of
-- polkadot-parachains/integritee-runtime/src/weights/pallet_enclave_bridge.rs document.
use parachain.Base.{◌≤◌, ◌≡◌, Bool, true, false, List, [], ◌∷◌, arith}
use parachain.Weights.Storage.{Access, bounded, skipped, total, is_bounded, proof_of}
use parachain.Weights.EnclaveBridge.Laws as Calls

abbrev confirm_processed_parentchain_block_accesses : List Access
confirm_processed_parentchain_block_accesses =
    skipped "Teerex SovereignEnclaves" 1 0
    ∷ skipped "EnclaveBridge ShardConfigRegistry" 1 0
    ∷ skipped "EnclaveBridge ShardStatus" 1 1
    ∷ []

abbrev shield_funds_accesses : List Access
shield_funds_accesses = bounded "System Account" 1 1 128 2603 ∷ []

abbrev unshield_funds_accesses : List Access
unshield_funds_accesses =
    skipped "Teerex SovereignEnclaves" 1 0
    ∷ skipped "EnclaveBridge ShardConfigRegistry" 1 0
    ∷ skipped "EnclaveBridge ShardStatus" 1 1
    ∷ skipped "EnclaveBridge ExecutedUnshieldCalls" 1 1
    ∷ bounded "System Account" 2 2 128 2603
    ∷ []

abbrev publish_hash_accesses : List Access
publish_hash_accesses =
    skipped "Teerex SovereignEnclaves" 1 0
    ∷ skipped "EnclaveBridge ShardStatus" 1 1
    ∷ skipped "System EventTopics" 6 6
    ∷ []

abbrev update_shard_config_accesses : List Access
update_shard_config_accesses =
    skipped "Teerex SovereignEnclaves" 1 0
    ∷ skipped "EnclaveBridge ShardConfigRegistry" 1 1
    ∷ skipped "EnclaveBridge ShardStatus" 1 1
    ∷ []

abbrev pub accesses : Calls.Call → List Access
accesses Calls.invoke = []
accesses Calls.confirm_processed_parentchain_block = confirm_processed_parentchain_block_accesses
accesses Calls.shield_funds = shield_funds_accesses
accesses Calls.unshield_funds = unshield_funds_accesses
accesses (Calls.publish_hash _ _) = publish_hash_accesses
accesses Calls.update_shard_config = update_shard_config_accesses

-- Where the component, if any, is the one that the accesses were counted at.
abbrev pub IsAtTop : Calls.Call → Type 0
IsAtTop c = Calls.IsCounted c

-- A function whose documented estimate does not depend on a component.
abbrev pub is_fixed : Calls.Call → Bool
is_fixed (Calls.publish_hash _ _) = false
is_fixed _ = true

pub total-accesses : (c : Calls.Call) → total (accesses c) ≡ Calls.storage c
total-accesses c = ground arith

pub proof_of-accesses-le :
    (c : Calls.Call)
    → is_bounded (accesses c) ≡ true
    → IsAtTop c
    → proof_of (accesses c) ≤ Calls.estimated c
proof_of-accesses-le c b h = ground arith

pub proof_of-accesses :
    (c : Calls.Call)
    → is_bounded (accesses c) ≡ true
    → is_fixed c ≡ true
    → proof_of (accesses c) ≡ Calls.estimated c
proof_of-accesses c b e = ground arith
