-- ===== src/Mtu/Search.antt =====
-- The search of DiscoverOptimalMtu in src/mtu_optimizer.cpp.
use disping.Common.{
  ℕ, zero, suc, ◌+◌, ◌-◌, ◌/◌, ◌≤◌, ◌<◌, ◌≡◌, refl, ◌⊎◌, inl, inr, Bool, true, false, Option, none,
  some, arith, leb, Bool-cases,
}
use disping.Common.State.{State}
use disping.Mtu.{search_payload, discover_optimal_mtu, converged}

-- A path that lets exactly the payloads up to a limit pass.
module _ {W : Type 0} (probe : ℕ → State W Bool) (limit : ℕ)
    (passes : (n : ℕ) (w : W) → (probe n w).0 ≡ leb n limit) where
  search_payload-limit :
      (fuel low high : ℕ) (best : Option ℕ) (w : W)
      → 1 ≤ low
      → low ≤ limit + 1
      → limit ≤ high
      → high + 1 ≤ fuel + low
      → (best ≡ some (low - 1)) ⊎ (low ≤ limit)
      → (search_payload probe fuel low high best w).0 ≡ some limit
  unfolding search_payload
  search_payload-limit zero low high best w one below above enough (inl here) = ground arith
  search_payload-limit zero low high best w one below above enough (inr more) = absurd (omega arith)
  search_payload-limit (suc fuel) low high best w one below above enough cases =
      elim (Bool-cases (leb low high)) [
        | inr done ↦ ground arith
        | inl more ↦
            let mid = low + (high - low) / 2 in
            let w1 = (probe mid w).1 in
            elim (Bool-cases (leb mid limit)) [
              | inl fits ↦
                  ground
                    (arith, passes mid w, search_payload-limit fuel (mid + 1) high (some mid) w1)
              | inr large ↦
                  ground (arith, passes mid w, search_payload-limit fuel low (mid - 1) best w1)
            ]
      ]

  -- On a path that lets exactly the payloads up to a limit pass, the limit at least 1200 and
  -- below 1472, DiscoverOptimalMtu finds the MTU that is 28 bytes above the limit, and an MSS
  -- that is 40 bytes less.
  pub discover_optimal_mtu-limit :
      (w : W)
      → 1200 ≤ limit
      → limit < 1472
      → let (r, w') = discover_optimal_mtu probe w in
        (r.found ≡ true) × (r.optimal_mtu ≡ limit + 28) × (r.optimal_mss + 40 ≡ r.optimal_mtu)
  unfolding discover_optimal_mtu
  discover_optimal_mtu-limit w low high =
      let w1 = (probe 1200 w).1 in
      let w2 = (probe 1472 w1).1 in
      let reachable : (probe 1200 w).0 ≡ true = ground (arith, passes 1200 w) in
      let full : (probe 1472 w1).0 ≡ false = ground (arith, passes 1472 w1) in
      let found =
        search_payload-limit 273 1200 1472 none w2 (omega arith) (omega arith) (omega arith)
          (omega arith) (inr low) in
      rw (reachable, full, found) (refl, refl, omega arith)

-- The three ways through the loop.
module _ {W : Type 0} (probe : ℕ → State W Bool) (fuel low high : ℕ) (best : Option ℕ) (w : W) where
  abbrev pub middle : ℕ
  middle = low + (high - low) / 2

  pub search_payload-done :
      leb low high ≡ false → search_payload probe (suc fuel) low high best w ≡ (best, w)
  unfolding search_payload
  search_payload-done done = ground arith

  pub search_payload-fits :
      leb low high ≡ true
      → (probe middle w).0 ≡ true
      → search_payload probe (suc fuel) low high best w
        ≡ search_payload probe fuel (middle + 1) high (some middle) (probe middle w).1
  unfolding search_payload
  search_payload-fits more fits = ground arith

  pub search_payload-large :
      leb low high ≡ true
      → (probe middle w).0 ≡ false
      → search_payload probe (suc fuel) low high best w
        ≡ search_payload probe fuel low (middle - 1) best (probe middle w).1
  unfolding search_payload
  search_payload-large more large = ground arith

abbrev Within : ℕ → ℕ → Option ℕ → Type 0
Within a b none = Unit
Within a b (some p) = (a ≤ p) × (p ≤ b)

module _ {W : Type 0} (probe : ℕ → State W Bool) where
  search_payload-Within :
      (fuel low high : ℕ) (best : Option ℕ) (w : W) (a b : ℕ)
      → a ≤ low
      → high ≤ b
      → Within a b best
      → Within a b (search_payload probe fuel low high best w).0
  unfolding search_payload
  search_payload-Within zero low high best w a b ha hb h = h
  search_payload-Within (suc fuel) low high best w a b ha hb h =
      let mid = middle probe fuel low high best w in
      let w1 = (probe mid w).1 in
      elim (Bool-cases (leb low high)) [
        | inr done ↦ rw (search_payload-done probe fuel low high best w done) h
        | inl more ↦ elim (Bool-cases (probe mid w).0) [
          | inl fits ↦ rw (search_payload-fits probe fuel low high best w more fits) (
              search_payload-Within fuel (mid + 1) high (some mid) w1 a b (ground arith) hb
                (ground arith, ground arith))
          | inr large ↦
              rw (search_payload-large probe fuel low high best w more large)
                (search_payload-Within fuel low (mid - 1) best w1 a b ha (ground arith) h)
        ]
      ]

  converged-bounds :
      (best : Option ℕ)
      → Within 1200 1472 best
      → let r = converged probe best in
        (1228 ≤ r.optimal_mtu) × (r.optimal_mtu ≤ 1500) × (r.optimal_mss + 40 ≡ r.optimal_mtu)
  converged-bounds none h = (omega arith, omega arith, refl)
  converged-bounds (some p) h = (omega (arith, h.0), omega (arith, h.1), omega (arith, h.0))

  -- Whatever the probes answer, the MTU lies between 1228 and 1500, and the MSS is 40 bytes
  -- less.
  pub discover_optimal_mtu-bounds :
      (w : W)
      → let r = (discover_optimal_mtu probe w).0 in
        (1228 ≤ r.optimal_mtu) × (r.optimal_mtu ≤ 1500) × (r.optimal_mss + 40 ≡ r.optimal_mtu)
  unfolding discover_optimal_mtu
  discover_optimal_mtu-bounds w =
      let w1 = (probe 1200 w).1 in
      let w2 = (probe 1472 w1).1 in
      elim (Bool-cases (probe 1200 w).0) [
        | inr silent ↦ rw silent (omega arith, omega arith, refl)
        | inl reachable ↦ elim (Bool-cases (probe 1472 w1).0) [
          | inl full ↦ rw (reachable, full) (omega arith, omega arith, refl)
          | inr cut ↦
              rw (reachable, cut)
                (converged-bounds (search_payload probe 273 1200 1472 none w2).0 (
                  search_payload-Within 273 1200 1472 none w2 1200 1472 (omega arith) (omega arith)
                    tt))
        ]
      ]
