-- ===== src/Weights/Proxy/Laws.antt =====
-- The components of the weight functions of `pallet_proxy`, what their source documents of each,
-- and what they charge (polkadot-parachains/integritee-runtime/src/weights/pallet_proxy.rs).
use parachain.Base.{ℕ, ◌≤◌, ◌≡◌, arith}
use parachain.Weights.Interface.{Weights, counting}
use parachain.Weights.Interface.Laws.{AreDocumented, saturate-le, saturate_of_le, weight_laws}
use parachain.Weights.Proxy

-- The functions, with their components.
pub data Call : Type 0 where
  proxy : ℕ → Call
  proxy_announced : ℕ → ℕ → Call
  remove_announcement : ℕ → ℕ → Call
  reject_announcement : ℕ → ℕ → Call
  announce : ℕ → ℕ → Call
  add_proxy : ℕ → Call
  remove_proxy : ℕ → Call
  remove_proxies : ℕ → Call
  create_pure : ℕ → Call
  kill_pure : ℕ → Call

unfoldable pub weight : (W : Weights) → Call → W.Weight
unfolding Proxy.proxy Proxy.proxy_announced Proxy.remove_announcement Proxy.reject_announcement
    Proxy.announce Proxy.add_proxy Proxy.remove_proxy Proxy.remove_proxies Proxy.create_pure
    Proxy.kill_pure
weight W (proxy p) = Proxy.proxy W p
weight W (proxy_announced a p) = Proxy.proxy_announced W a p
weight W (remove_announcement a p) = Proxy.remove_announcement W a p
weight W (reject_announcement a p) = Proxy.reject_announcement W a p
weight W (announce a p) = Proxy.announce W a p
weight W (add_proxy p) = Proxy.add_proxy W p
weight W (remove_proxy p) = Proxy.remove_proxy W p
weight W (remove_proxies p) = Proxy.remove_proxies W p
weight W (create_pure p) = Proxy.create_pure W p
weight W (kill_pure p) = Proxy.kill_pure W p

-- "The range of component ... is ..."
abbrev pub InRange : Call → Type 0
InRange (proxy p) = (1 ≤ p) × (p ≤ 31)
InRange (proxy_announced a p) = (a ≤ 31) × (1 ≤ p) × (p ≤ 31)
InRange (remove_announcement a p) = (a ≤ 31) × (1 ≤ p) × (p ≤ 31)
InRange (reject_announcement a p) = (a ≤ 31) × (1 ≤ p) × (p ≤ 31)
InRange (announce a p) = (a ≤ 31) × (1 ≤ p) × (p ≤ 31)
InRange (add_proxy p) = (1 ≤ p) × (p ≤ 31)
InRange (remove_proxy p) = (1 ≤ p) × (p ≤ 31)
InRange (remove_proxies p) = (1 ≤ p) × (p ≤ 31)
InRange (create_pure p) = (1 ≤ p) × (p ≤ 31)
InRange (kill_pure p) = (p ≤ 30)

-- "Estimated: ...", the size of the proof in bytes.
abbrev pub estimated : Call → ℕ
estimated (proxy _) = 4706
estimated (proxy_announced _ _) = 5698
estimated (remove_announcement _ _) = 5698
estimated (reject_announcement _ _) = 5698
estimated (announce _ _) = 5698
estimated (add_proxy _) = 4706
estimated (remove_proxy _) = 4706
estimated (remove_proxies _) = 4706
estimated (create_pure _) = 4706
estimated (kill_pure _) = 4706

-- "Storage: ... (r:... w:...)", added up.
abbrev pub storage : Call → ℕ × ℕ
storage (proxy _) = (1, 0)
storage (proxy_announced _ _) = (3, 2)
storage (remove_announcement _ _) = (2, 2)
storage (reject_announcement _ _) = (2, 2)
storage (announce _ _) = (3, 2)
storage (add_proxy _) = (1, 1)
storage (remove_proxy _) = (1, 1)
storage (remove_proxies _) = (1, 1)
storage (create_pure _) = (1, 1)
storage (kill_pure _) = (1, 1)

-- The component at which the accesses were counted, where they depend on one.
abbrev pub IsCounted : Call → Type 0
IsCounted _ = Unit {0}

pub estimated-le : (c : Call) → InRange c → estimated c ≤ 2_621_440
estimated-le (proxy p) h = omega arith
estimated-le _ h = omega arith

module _ (W : Weights) ⦃D : AreDocumented W⦄ where
  -- In the documented ranges the proof size is the documented estimate: nothing saturates.
  pub proof_size-weight : (c : Call) → InRange c → W.proof_size (weight W c) ≡ estimated c
  unfolding weight
  proof_size-weight (proxy p) h = simp weight_laws (omega (arith, saturate_of_le))
  proof_size-weight _ h = simp weight_laws (omega (arith, saturate_of_le))

  -- In the documented ranges, with storage as fast as documented, the execution takes at most a
  -- quarter of a second.
  pub ref_time-weight-le :
      D.read ≤ 25_000_000
      → D.write ≤ 100_000_000
      → (c : Call) → InRange c
      → W.ref_time (weight W c) ≤ 250_000_000_000
  unfolding weight
  ref_time-weight-le fast quick (proxy p) h = simp weight_laws (omega (arith, saturate-le))
  ref_time-weight-le fast quick _ h = simp weight_laws (omega (arith, saturate-le))

-- At the counted component the weight charges the documented accesses, no more and no fewer.
pub weight-counting : (c : Call) → IsCounted c → weight counting c ≡ storage c
unfolding weight
weight-counting (proxy p) h = ground arith
weight-counting _ h = ground arith
