-- ===== src/Hardware/Cpu.antt =====
-- DetectHardware of src/hardware_detector.cpp: vendor, brand and features from CPUID, then the cores and the memory.
use disping.Common.{
  ℕ, ◌/◌, ◌%◌, ◌^◌, Bool, true, false, ◌&&◌, ◌||◌, Option, none, some, List, [], ◌∷◌, ltb, leb,
  ◌==◌, if◌then◌else◌,
}
use disping.Common.State.{State, ◌>>=◌, pure}
use disping.Common.Text.{codes, same, lower, contains}
use disping.Windows.Hardware.{CoreInfo, HardwareApi}
use disping.Windows.Processes.{ProcessApi}
use disping.Hardware.{CpuVendor, intel, amd, other, HardwareProfile, new_profile}
use disping.Hardware.Cores.{detect_cores_and_memory}

-- `(x & (1 << n)) != 0`.
abbrev bit : ℕ → ℕ → Bool
bit n x = x / 2 ^ n % 2 == 1

-- The four bytes of a register in memory, before other bytes.
unfoldable pub word_bytes : ℕ → List ℕ → List ℕ
word_bytes x rest = x % 256 ∷ x / 2 ^ 8 % 256 ∷ x / 2 ^ 16 % 256 ∷ x / 2 ^ 24 % 256 ∷ rest

-- The text that an array of bytes holds ends at the first zero.
unfoldable pub c_string : List ℕ → List ℕ
c_string [] = []
c_string (c ∷ s) = let rest = c_string s in if c == 0 then [] else c ∷ rest

unfoldable pub vendor_of : List ℕ → CpuVendor
vendor_of name =
    if same name (codes "GenuineIntel")
    then intel
    else if same name (codes "AuthenticAMD")
    then amd
    else other

-- From the first byte that is no space on; empty if there is none.
unfoldable pub skip_spaces : List ℕ → List ℕ
skip_spaces [] = []
skip_spaces (c ∷ s) = let rest = skip_spaces s in if c == b' ' then rest else c ∷ s

abbrev or_whole : List ℕ → List ℕ → List ℕ
or_whole whole [] = whole
or_whole whole (c ∷ s) = c ∷ s

unfoldable pub trimmed : List ℕ → List ℕ
unfolding skip_spaces
trimmed s = or_whole s (skip_spaces s)

abbrev is_amd : CpuVendor → Bool
is_amd amd = true
is_amd _ = false

unfoldable pub mark_x3d : HardwareProfile → HardwareProfile
mark_x3d prof =
    let brand = lower prof.cpu_brand in
    if is_amd prof.cpu_vendor
      && (contains (codes "x3d") brand || contains (codes "3d v-cache") brand)
    then record prof { is_amd_x3d = true }
    else prof

abbrev total_of : Option (ℕ × ℕ × ℕ) → Option ℕ
total_of none = none
total_of (some (total, free, load)) = some total

module _ {W : Type 0} (hw : HardwareApi W) where
  unfoldable pub read_vendor : HardwareProfile → State W HardwareProfile
  read_vendor prof = do
    r ← hw.cpuid 0 0
    let name = c_string (word_bytes r.ebx (word_bytes r.edx (word_bytes r.ecx [])))
    pure (record prof { cpu_vendor_str = name; cpu_vendor = vendor_of name })

  -- The 16 bytes of each leaf.
  unfoldable pub brand_bytes : List ℕ → State W (List ℕ)
  brand_bytes [] = pure []
  brand_bytes (leaf ∷ leaves) = do
    r ← hw.cpuid leaf 0
    rest ← brand_bytes leaves
    pure (word_bytes r.eax (word_bytes r.ebx (word_bytes r.ecx (word_bytes r.edx rest))))

  unfoldable pub read_brand : ℕ → HardwareProfile → State W HardwareProfile
  read_brand max_ext prof =
      if leb 0x80000004 max_ext
      then (do
        bytes ← brand_bytes (0x80000002 ∷ 0x80000003 ∷ 0x80000004 ∷ [])
        pure (record prof { cpu_brand = trimmed (c_string bytes) }))
      else pure prof

  unfoldable pub read_rdtscp : ℕ → HardwareProfile → State W HardwareProfile
  read_rdtscp max_ext prof =
      if leb 0x80000001 max_ext
      then (do r ← hw.cpuid 0x80000001 0; pure (record prof { has_rdtscp = bit 27 r.edx }))
      else pure prof

  -- The features, and the flag of a hybrid processor.
  unfoldable pub read_features : ℕ → HardwareProfile → State W (Bool × HardwareProfile)
  read_features max_ext prof = do
    r1 ← hw.cpuid 1 0
    r7 ← hw.cpuid 7 0
    able ← read_rdtscp max_ext (record prof {
      has_sse2 = bit 26 r1.edx;
      has_sse41 = bit 19 r1.ecx;
      has_sse42 = bit 20 r1.ecx;
      has_fma3 = bit 12 r1.ecx;
      has_avx = bit 28 r1.ecx;
      has_avx2 = bit 5 r7.ebx;
      has_bmi1 = bit 3 r7.ebx;
      has_bmi2 = bit 8 r7.ebx;
      has_avx512 = bit 16 r7.ebx;
    })
    pure (bit 15 r7.edx, record able { has_crc32 = able.has_sse42 })

  unfoldable pub list_cores : State W (Option (List CoreInfo))
  list_cores = do
    (insufficient, length) ← hw.processor_cores_length
    if insufficient && ltb 0 length then hw.processor_cores length else pure none

  unfoldable pub detect_hardware : ProcessApi W → State W HardwareProfile
  detect_hardware procs = do
    named ← read_vendor new_profile
    ext ← hw.cpuid 0x80000000 0
    branded ← read_brand ext.eax named
    (hybrid_flag, able) ← read_features ext.eax (mark_x3d branded)
    processors ← hw.number_of_processors
    cores ← list_cores
    status ← procs.global_memory_status
    pure (detect_cores_and_memory processors hybrid_flag cores (total_of status) able)
