-- ===== src/Dispatch.antt =====
-- src/disping_asm_dispatch.cpp: the choice between the assembly routines. The routines, and what they find out about the
-- processor, are parameters.
pub mod Choice
use disping.Common.{ℕ, Bool, Option, none, some, List, if◌then◌else◌}
use disping.Common.State.{State}

pub record AsmApi (W : Type 0) : Type 0 where
  pub asm_has_avx2_support : Bool
  pub asm_has_rdtscp_support : Bool
  -- the checksum of a buffer's bytes
  pub asm_avx2_checksum : List ℕ → State W ℕ
  pub asm_sse2_checksum : List ℕ → State W ℕ
  -- zeros for a number of bytes at an address
  pub asm_avx2_memzero_nt : ℕ → ℕ → State W Unit
  pub asm_sse2_memzero_nt : ℕ → ℕ → State W Unit
  pub asm_read_tsc_fast_serialized : State W ℕ
  pub asm_read_tsc_serialized : State W ℕ

pub data ChecksumFn : Type 0 where
  avx2_checksum sse2_checksum : ChecksumFn

pub data MemzeroFn : Type 0 where
  avx2_memzero sse2_memzero : MemzeroFn

pub data TscFn : Type 0 where
  fast_tsc slow_tsc : TscFn

-- The three pointers, `none` for nullptr.
pub record DispatchTable : Type 0 where
  pub checksum_ptr : Option ChecksumFn
  pub memzero_ptr : Option MemzeroFn
  pub tsc_ptr : Option TscFn

abbrev pub empty_table : DispatchTable
empty_table = record { checksum_ptr = none; memzero_ptr = none; tsc_ptr = none }

module _ {W : Type 0} (asm : AsmApi W) where
  open asm use {asm_has_avx2_support, asm_has_rdtscp_support}

  unfoldable pub init_dispatch_table : DispatchTable → DispatchTable
  init_dispatch_table t = record {
    checksum_ptr = some (if asm_has_avx2_support then avx2_checksum else sse2_checksum);
    memzero_ptr = some (if asm_has_avx2_support then avx2_memzero else sse2_memzero);
    tsc_ptr = some (if asm_has_rdtscp_support then fast_tsc else slow_tsc);
  }

  unfoldable pub call_checksum : ChecksumFn → List ℕ → State W ℕ
  call_checksum avx2_checksum buffer = asm.asm_avx2_checksum buffer
  call_checksum sse2_checksum buffer = asm.asm_sse2_checksum buffer

  unfoldable pub call_memzero : MemzeroFn → ℕ → ℕ → State W Unit
  call_memzero avx2_memzero dst size = asm.asm_avx2_memzero_nt dst size
  call_memzero sse2_memzero dst size = asm.asm_sse2_memzero_nt dst size

  unfoldable pub call_tsc : TscFn → State W ℕ
  call_tsc fast_tsc = asm.asm_read_tsc_fast_serialized
  call_tsc slow_tsc = asm.asm_read_tsc_serialized

  -- The table is filled where a pointer is nullptr; the result is that of the call through the pointer, `none` where it is
  -- still nullptr.
  unfoldable pub ready : {A : Type 0} → Option A → DispatchTable → DispatchTable
  ready none t = init_dispatch_table t
  ready (some fn) t = t

  abbrev pub through : {F A : Type 0} → (F → State W A) → Option F → W → Option (A × W)
  through call none w = none
  through call (some fn) w = some (call fn w)

  unfoldable pub disping_fast_checksum_auto :
      List ℕ → DispatchTable → W → DispatchTable × Option (ℕ × W)
  disping_fast_checksum_auto buffer t w =
      let t' = ready t.checksum_ptr t in
      (t', through (λ fn. call_checksum fn buffer) t'.checksum_ptr w)

  unfoldable pub disping_fast_memzero_auto :
      ℕ → ℕ → DispatchTable → W → DispatchTable × Option (Unit {0} × W)
  disping_fast_memzero_auto dst size t w =
      let t' = ready t.memzero_ptr t in
      (t', through (λ fn. call_memzero fn dst size) t'.memzero_ptr w)

  unfoldable pub disping_read_tsc_auto : DispatchTable → W → DispatchTable × Option (ℕ × W)
  disping_read_tsc_auto t w = let t' = ready t.tsc_ptr t in (t', through call_tsc t'.tsc_ptr w)
