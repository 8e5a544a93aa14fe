-- ===== src/Windows/Hardware.antt =====
-- The processor: the CPUID instruction, GetSystemInfo and GetLogicalProcessorInformationEx.
use disping.Common.{ℕ, Bool, Option, List}
use disping.Common.State.{State}

pub record Registers : Type 0 where
  pub eax : ℕ
  pub ebx : ℕ
  pub ecx : ℕ
  pub edx : ℕ

-- SYSTEM_LOGICAL_PROCESSOR_INFORMATION_EX: is its relationship RelationProcessorCore, its efficiency class and its mask.
pub record CoreInfo : Type 0 where
  pub is_core : Bool
  pub efficiency_class : ℕ
  pub mask : ℕ

pub record HardwareApi (W : Type 0) : Type 0 where
  -- leaf and subleaf
  pub cpuid : ℕ → ℕ → State W Registers
  -- dwNumberOfProcessors
  pub number_of_processors : State W ℕ
  -- the call without a buffer: is GetLastError ERROR_INSUFFICIENT_BUFFER, and the length that is asked for
  pub processor_cores_length : State W (Bool × ℕ)
  -- the call with a buffer of that length; `none` if it fails
  pub processor_cores : ℕ → State W (Option (List CoreInfo))
