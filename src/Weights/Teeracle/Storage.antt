-- ===== src/Weights/Teeracle/Storage.antt =====
-- The storage accesses and proof sizes that the comments of
-- polkadot-parachains/integritee-runtime/src/weights/pallet_teeracle.rs document.
use parachain.Base.{◌≤◌, ◌≡◌, Bool, true, List, [], ◌∷◌, arith}
use parachain.Weights.Storage.{Access, skipped, total, is_bounded, proof_of}
use parachain.Weights.Teeracle.Laws as Calls

abbrev update_exchange_rate_accesses : List Access
update_exchange_rate_accesses =
    skipped "Teerex SovereignEnclaves" 1 0
    ∷ skipped "Teeracle Whitelists" 1 0
    ∷ skipped "Teeracle ExchangeRates" 1 1
    ∷ []

abbrev update_oracle_accesses : List Access
update_oracle_accesses =
    skipped "Teerex SovereignEnclaves" 1 0
    ∷ skipped "Teeracle Whitelists" 1 0
    ∷ skipped "Teeracle OracleData" 0 1
    ∷ []

abbrev add_to_whitelist_accesses : List Access
add_to_whitelist_accesses = skipped "Teeracle Whitelists" 1 1 ∷ []

abbrev remove_from_whitelist_accesses : List Access
remove_from_whitelist_accesses = skipped "Teeracle Whitelists" 1 1 ∷ []

abbrev pub accesses : Calls.Call → List Access
accesses Calls.update_exchange_rate = update_exchange_rate_accesses
accesses Calls.update_oracle = update_oracle_accesses
accesses Calls.add_to_whitelist = add_to_whitelist_accesses
accesses Calls.remove_from_whitelist = remove_from_whitelist_accesses

-- Where the component, if any, is the one that the accesses were counted at.
abbrev pub IsAtTop : Calls.Call → Type 0
IsAtTop c = Calls.IsCounted c

-- A function whose documented estimate does not depend on a component.
abbrev pub is_fixed : Calls.Call → Bool
is_fixed _ = true

pub total-accesses : (c : Calls.Call) → total (accesses c) ≡ Calls.storage c
total-accesses c = ground arith

pub proof_of-accesses-le :
    (c : Calls.Call)
    → is_bounded (accesses c) ≡ true
    → IsAtTop c
    → proof_of (accesses c) ≤ Calls.estimated c
proof_of-accesses-le c b h = ground arith

pub proof_of-accesses :
    (c : Calls.Call)
    → is_bounded (accesses c) ≡ true
    → is_fixed c ≡ true
    → proof_of (accesses c) ≡ Calls.estimated c
proof_of-accesses c b e = ground arith
