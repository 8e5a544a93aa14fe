-- ===== src/Hardware/Affinity.antt =====
-- The affinity mask of src/hardware_detector.cpp.
use native.Mathlib.Omega.{pow_step}
use disping.Common.{
  ℕ, zero, suc, ◌+◌, ◌-◌, ◌%◌, ◌^◌, ◌≤◌, ◌≡◌, false, arith, leb, Bool-cases, inl, inr,
}
use disping.Hardware.{HardwareProfile, all_cores, calculate_optimal_gaming_affinity}

two_pow_grows : (a k : ℕ) → 2 ^ a ≤ 2 ^ (k + a)
two_pow_grows a zero = let e : 0 + a ≡ a = omega arith in rw e (omega arith)
two_pow_grows a (suc k) =
    let e : suc k + a ≡ suc (k + a) = omega arith in
    rw e (omega (arith, pow_step 2 (k + a), two_pow_grows a k))

two_pow_mono : (a b : ℕ) → a ≤ b → 2 ^ a ≤ 2 ^ b
two_pow_mono a b h =
    let e : (b - a) + a ≡ b = omega arith in let g = two_pow_grows a (b - a) in rw e at g

-- The mask of all cores holds the mask of a smaller number of cores.
all_cores-bound : (a n : ℕ) → a ≤ n → a ≤ 64 → 2 ^ a ≤ all_cores n + 1
all_cores-bound a n h small = elim (Bool-cases (leb 64 n)) [
  | inl many ↦ rw many (let g = two_pow_mono a 64 small in omega (arith, g))
  | inr few ↦ rw few (let g = two_pow_mono a n h in omega (arith, g))
]

-- The affinity mask lies within the mask of all cores and is not empty, if there is a core
-- and the profile brings such a mask for its performance cores.
pub calculate_optimal_gaming_affinity-bounds :
    (profile : HardwareProfile)
    → 1 ≤ profile.logical_cores
    → 1 ≤ profile.optimal_game_affinity_mask
    → profile.optimal_game_affinity_mask ≤ all_cores profile.logical_cores
    → let mask = calculate_optimal_gaming_affinity profile in
      (1 ≤ mask) × (mask ≤ all_cores profile.logical_cores)
unfolding calculate_optimal_gaming_affinity
calculate_optimal_gaming_affinity-bounds profile some given fits =
    let n = profile.logical_cores in
    ground
      (arith, all_cores-bound 16 n, all_cores-bound 6 n, all_cores-bound 4 n, all_cores-bound 1 n)

-- On a processor that is not hybrid and has six or more cores the mask leaves out the two
-- threads of core 0.
pub calculate_optimal_gaming_affinity-isolated :
    (profile : HardwareProfile)
    → profile.is_hybrid ≡ false
    → 6 ≤ profile.logical_cores
    → calculate_optimal_gaming_affinity profile % 4 ≡ 0
unfolding calculate_optimal_gaming_affinity
calculate_optimal_gaming_affinity-isolated profile plain six = ground arith
