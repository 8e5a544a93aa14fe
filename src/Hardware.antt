-- ===== src/Hardware.antt =====
-- src/hardware_detector.cpp: the profile, the tier of the instruction set and the affinity mask for games.
pub mod Nic
pub mod Cores
pub mod Cpu
pub mod Report
pub mod Affinity
use Prim.Native.Nat.{bit_or}
use disping.Common.{
  ℕ, zero, suc, ◌+◌, ◌-◌, ◌*◌, ◌/◌, ◌%◌, ◌^◌, String, Bool, true, false, not, ◌&&◌, ◌||◌, Option,
  none, some, List, [], ◌∷◌, ltb, leb, ◌==◌, if◌then◌else◌,
}
use disping.Common.Text.{codes}

pub data CpuVendor : Type 0 where
  intel amd other : CpuVendor

-- The texts are lists of bytes. The lists of network cards, which nothing fills or reads, are left out.
pub record HardwareProfile : Type 0 where
  pub cpu_vendor : CpuVendor
  pub cpu_vendor_str : List ℕ
  pub cpu_brand : List ℕ
  pub logical_cores : ℕ
  pub physical_cores : ℕ
  pub p_core_count : ℕ
  pub e_core_count : ℕ
  pub is_hybrid : Bool
  pub is_amd_x3d : Bool
  pub optimal_game_affinity_mask : ℕ
  pub has_avx512 : Bool
  pub has_avx2 : Bool
  pub has_avx : Bool
  pub has_fma3 : Bool
  pub has_sse42 : Bool
  pub has_sse41 : Bool
  pub has_sse2 : Bool
  pub has_bmi1 : Bool
  pub has_bmi2 : Bool
  pub has_rdtscp : Bool
  pub has_crc32 : Bool
  pub total_ram_bytes : ℕ
  pub total_ram_gb : ℕ
  pub is_low_ram : Bool
  pub is_high_ram : Bool

-- The initial values of the fields.
abbrev pub new_profile : HardwareProfile
new_profile = record {
  cpu_vendor = other;
  cpu_vendor_str = codes "Unknown";
  cpu_brand = codes "Unknown CPU";
  logical_cores = 1;
  physical_cores = 1;
  p_core_count = 1;
  e_core_count = 0;
  is_hybrid = false;
  is_amd_x3d = false;
  optimal_game_affinity_mask = 0;
  has_avx512 = false;
  has_avx2 = false;
  has_avx = false;
  has_fma3 = false;
  has_sse42 = false;
  has_sse41 = false;
  has_sse2 = false;
  has_bmi1 = false;
  has_bmi2 = false;
  has_rdtscp = false;
  has_crc32 = false;
  total_ram_bytes = 0;
  total_ram_gb = 0;
  is_low_ram = false;
  is_high_ram = false;
}

-- `~0ULL` from 64 cores on, else `(1ULL << cores) - 1ULL`.
abbrev pub all_cores : ℕ → ℕ
all_cores cores = if leb 64 cores then 2 ^ 64 - 1 else 2 ^ cores - 1

-- `mask & ~3ULL`: the two lowest bits cleared.
abbrev pub clear_core0 : ℕ → ℕ
clear_core0 mask = mask - mask % 4

unfoldable pub calculate_optimal_gaming_affinity : HardwareProfile → ℕ
calculate_optimal_gaming_affinity profile =
    let cores = profile.logical_cores in
    let given = profile.optimal_game_affinity_mask in
    if profile.is_hybrid && ltb 0 profile.p_core_count
    then (let mask = if leb 8 cores then clear_core0 given else given in
        if mask == 0 then given else mask)
    else if profile.is_amd_x3d && leb 24 cores
    then clear_core0 0xFFFF
    else if leb 6 cores
    then clear_core0 (all_cores cores)
    else if cores == 4
    then 0x0E
    else all_cores cores

unfoldable pub get_isa_tier_description : HardwareProfile → String
get_isa_tier_description profile =
    if profile.has_avx512
    then "Tier 4: AVX-512 Ultra (512-bit Vector SIMD Engine)"
    else if profile.has_avx2
    then "Tier 3: AVX2 High-Performance (256-bit Vector SIMD Engine)"
    else if profile.has_avx
    then "Tier 2: AVX Classic (128-bit Vector Floating Point)"
    else if profile.has_sse42
    then "Tier 1: SSE4.2 / SSE4.1 (Streaming SIMD Extensions)"
    else "Tier 0: SSE2 Universal Baseline (100% Compatible Fallback)"
