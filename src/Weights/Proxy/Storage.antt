-- ===== src/Weights/Proxy/Storage.antt =====
-- The storage accesses and proof sizes that the comments of
-- polkadot-parachains/integritee-runtime/src/weights/pallet_proxy.rs document.
use parachain.Base.{◌≤◌, ◌≡◌, Bool, true, List, [], ◌∷◌, arith}
use parachain.Weights.Storage.{Access, bounded, total, is_bounded, proof_of}
use parachain.Weights.Proxy.Laws as Calls

abbrev proxy_accesses : List Access
proxy_accesses = bounded "Proxy Proxies" 1 0 1241 3716 ∷ []

abbrev proxy_announced_accesses : List Access
proxy_announced_accesses =
    bounded "Proxy Proxies" 1 0 1241 3716
    ∷ bounded "Proxy Announcements" 1 1 2233 4708
    ∷ bounded "System Account" 1 1 128 2603
    ∷ []

abbrev remove_announcement_accesses : List Access
remove_announcement_accesses =
    bounded "Proxy Announcements" 1 1 2233 4708 ∷ bounded "System Account" 1 1 128 2603 ∷ []

abbrev reject_announcement_accesses : List Access
reject_announcement_accesses =
    bounded "Proxy Announcements" 1 1 2233 4708 ∷ bounded "System Account" 1 1 128 2603 ∷ []

abbrev announce_accesses : List Access
announce_accesses =
    bounded "Proxy Proxies" 1 0 1241 3716
    ∷ bounded "Proxy Announcements" 1 1 2233 4708
    ∷ bounded "System Account" 1 1 128 2603
    ∷ []

abbrev add_proxy_accesses : List Access
add_proxy_accesses = bounded "Proxy Proxies" 1 1 1241 3716 ∷ []

abbrev remove_proxy_accesses : List Access
remove_proxy_accesses = bounded "Proxy Proxies" 1 1 1241 3716 ∷ []

abbrev remove_proxies_accesses : List Access
remove_proxies_accesses = bounded "Proxy Proxies" 1 1 1241 3716 ∷ []

abbrev create_pure_accesses : List Access
create_pure_accesses = bounded "Proxy Proxies" 1 1 1241 3716 ∷ []

abbrev kill_pure_accesses : List Access
kill_pure_accesses = bounded "Proxy Proxies" 1 1 1241 3716 ∷ []

abbrev pub accesses : Calls.Call → List Access
accesses (Calls.proxy _) = proxy_accesses
accesses (Calls.proxy_announced _ _) = proxy_announced_accesses
accesses (Calls.remove_announcement _ _) = remove_announcement_accesses
accesses (Calls.reject_announcement _ _) = reject_announcement_accesses
accesses (Calls.announce _ _) = announce_accesses
accesses (Calls.add_proxy _) = add_proxy_accesses
accesses (Calls.remove_proxy _) = remove_proxy_accesses
accesses (Calls.remove_proxies _) = remove_proxies_accesses
accesses (Calls.create_pure _) = create_pure_accesses
accesses (Calls.kill_pure _) = kill_pure_accesses

-- Where the component, if any, is the one that the accesses were counted at.
abbrev pub IsAtTop : Calls.Call → Type 0
IsAtTop c = Calls.IsCounted c

-- A function whose documented estimate does not depend on a component.
abbrev pub is_fixed : Calls.Call → Bool
is_fixed _ = true

pub total-accesses : (c : Calls.Call) → total (accesses c) ≡ Calls.storage c
total-accesses c = ground arith

pub proof_of-accesses-le :
    (c : Calls.Call)
    → is_bounded (accesses c) ≡ true
    → IsAtTop c
    → proof_of (accesses c) ≤ Calls.estimated c
proof_of-accesses-le c b h = ground arith

pub proof_of-accesses :
    (c : Calls.Call)
    → is_bounded (accesses c) ≡ true
    → is_fixed c ≡ true
    → proof_of (accesses c) ≡ Calls.estimated c
proof_of-accesses c b e = ground arith
