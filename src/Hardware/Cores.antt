-- ===== src/Hardware/Cores.antt =====
-- The cores and the memory in DetectHardware of src/hardware_detector.cpp.
use Prim.Native.Nat.{bit_or}
use disping.Common.{
  ℕ, ◌+◌, ◌/◌, ◌%◌, ◌^◌, Bool, true, false, not, ◌&&◌, ◌||◌, Option, none, some, List, [], ◌∷◌, ltb,
  leb, ◌==◌, if◌then◌else◌,
}
use disping.Windows.Hardware.{CoreInfo}
use disping.Hardware.{HardwareProfile, calculate_optimal_gaming_affinity}

-- `pCores`, `eCores` and `pCoresAffinity` after the loop over the cores.
pub record CoreCount : Type 0 where
  pub p_cores : ℕ
  pub e_cores : ℕ
  pub p_cores_affinity : ℕ

unfoldable pub count_cores : CoreCount → List CoreInfo → CoreCount
count_cores count [] = count
count_cores count (core ∷ rest) =
    count_cores
      (if not core.is_core
        then count
        else if ltb 0 core.efficiency_class
        then record count {
          p_cores = count.p_cores + 1;
          p_cores_affinity = bit_or count.p_cores_affinity core.mask;
        }
        else record count { e_cores = count.e_cores + 1 })
      rest

abbrev pub no_cores : CoreCount
no_cores = record { p_cores = 0; e_cores = 0; p_cores_affinity = 0 }

-- What DetectHardware stores for the cores that Windows lists; `none` if a call fails.
unfoldable pub store_topology : Bool → Option (List CoreInfo) → HardwareProfile → HardwareProfile
unfolding count_cores
store_topology hybrid_flag none prof = prof
store_topology hybrid_flag (some cores) prof =
    let count = count_cores no_cores cores in
    let physical = count.p_cores + count.e_cores in
    if ltb 0 count.p_cores && ltb 0 count.e_cores || hybrid_flag && ltb 0 count.p_cores
    then record prof {
      physical_cores = physical;
      is_hybrid = true;
      p_core_count = count.p_cores;
      e_core_count = count.e_cores;
      optimal_game_affinity_mask = count.p_cores_affinity;
    }
    else record prof {
      physical_cores = physical;
      is_hybrid = false;
      p_core_count = physical;
      e_core_count = 0;
    }

-- The guess where no core was counted.
unfoldable pub guess_cores : HardwareProfile → HardwareProfile
guess_cores prof =
    if prof.physical_cores == 0
    then (let cores =
          if ltb 2 prof.logical_cores then prof.logical_cores / 2 else prof.logical_cores in
        record prof { physical_cores = cores; p_core_count = cores })
    else prof

-- The memory, rounded to whole GB on 64 bits; `none` if GlobalMemoryStatusEx fails.
unfoldable pub store_memory : Option ℕ → HardwareProfile → HardwareProfile
store_memory none prof = prof
store_memory (some bytes) prof =
    let gb = (bytes + 2 ^ 29) % 2 ^ 64 / 2 ^ 30 % 2 ^ 32 in
    record prof {
      total_ram_bytes = bytes;
      total_ram_gb = gb;
      is_low_ram = leb gb 8;
      is_high_ram = leb 16 gb;
    }

-- The steps 5 to 7 of DetectHardware.
unfoldable pub detect_cores_and_memory :
    ℕ → Bool → Option (List CoreInfo) → Option ℕ → HardwareProfile → HardwareProfile
unfolding store_topology guess_cores store_memory
detect_cores_and_memory processors hybrid_flag cores memory prof =
    let counted = store_topology hybrid_flag cores (record prof { logical_cores = processors }) in
    let done = store_memory memory (guess_cores counted) in
    record done { optimal_game_affinity_mask = calculate_optimal_gaming_affinity done }
