-- ===== src/Dispatch/Choice.antt =====
-- The routines that the dispatch of src/disping_asm_dispatch.cpp calls.
use disping.Common.{ℕ, ◌≡◌, refl, ◌⊎◌, inl, inr, Option, none, some, List, if◌then◌else◌, arith}
use disping.Dispatch.{
  AsmApi, DispatchTable, avx2_checksum, sse2_checksum, avx2_memzero, sse2_memzero, fast_tsc,
  slow_tsc, init_dispatch_table, call_checksum, call_memzero, call_tsc, ready,
  disping_fast_checksum_auto, disping_fast_memzero_auto, disping_read_tsc_auto,
}

module _ {W : Type 0} (asm : AsmApi W) where
  open asm use {asm_has_avx2_support, asm_has_rdtscp_support}

  -- Each pointer is nullptr or that of a routine that the processor can run.
  pub record Fits (t : DispatchTable) : Type 0 where
    pub checksum :
        (t.checksum_ptr ≡ none)
        ⊎ (t.checksum_ptr ≡ some (if asm_has_avx2_support then avx2_checksum else sse2_checksum))
    pub memzero :
        (t.memzero_ptr ≡ none)
        ⊎ (t.memzero_ptr ≡ some (if asm_has_avx2_support then avx2_memzero else sse2_memzero))
    pub tsc :
        (t.tsc_ptr ≡ none)
        ⊎ (t.tsc_ptr ≡ some (if asm_has_rdtscp_support then fast_tsc else slow_tsc))

  init-Fits : (t : DispatchTable) → Fits (init_dispatch_table asm t)
  unfolding init_dispatch_table
  init-Fits t = record { checksum = inr refl; memzero = inr refl; tsc = inr refl }

  ready-Fits : {A : Type 0} (o : Option A) (t : DispatchTable) → Fits t → Fits (ready asm o t)
  unfolding ready
  ready-Fits none t f = init-Fits t
  ready-Fits (some a) t f = f

  checksum_called :
      (t : DispatchTable) (buffer : List ℕ) (w : W)
      → Fits t
      → (disping_fast_checksum_auto asm buffer t w).1
        ≡ some (
            if asm_has_avx2_support
            then asm.asm_avx2_checksum buffer w
            else asm.asm_sse2_checksum buffer w)
  unfolding disping_fast_checksum_auto init_dispatch_table call_checksum ready
  checksum_called t buffer w f = elim f.checksum [
    | inl null ↦ rw null (ground arith)
    | inr set ↦ rw set (ground arith)
  ]

  memzero_called :
      (t : DispatchTable) (dst size : ℕ) (w : W)
      → Fits t
      → (disping_fast_memzero_auto asm dst size t w).1
        ≡ some (
            if asm_has_avx2_support
            then asm.asm_avx2_memzero_nt dst size w
            else asm.asm_sse2_memzero_nt dst size w)
  unfolding disping_fast_memzero_auto init_dispatch_table call_memzero ready
  memzero_called t dst size w f = elim f.memzero [
    | inl null ↦ rw null (ground arith)
    | inr set ↦ rw set (ground arith)
  ]

  tsc_called :
      (t : DispatchTable) (w : W)
      → Fits t
      → (disping_read_tsc_auto asm t w).1
        ≡ some (
            if asm_has_rdtscp_support
            then asm.asm_read_tsc_fast_serialized w
            else asm.asm_read_tsc_serialized w)
  unfolding disping_read_tsc_auto init_dispatch_table call_tsc ready
  tsc_called t w f = elim f.tsc [
    | inl null ↦ rw null (ground arith)
    | inr set ↦ rw set (ground arith)
  ]

  -- If each pointer of the dispatch table is nullptr or that of the routine for this
  -- processor, the three functions call the AVX2 routines exactly if the processor has AVX2
  -- and the fast clock exactly if it has RDTSCP, never a null pointer, and the table stays
  -- so.
  pub dispatch-Fits :
      (t : DispatchTable) (buffer : List ℕ) (dst size : ℕ) (w : W)
      → Fits t
      → (disping_fast_checksum_auto asm buffer t w).1
          ≡ some (
              if asm_has_avx2_support
              then asm.asm_avx2_checksum buffer w
              else asm.asm_sse2_checksum buffer w)
        × ((disping_fast_memzero_auto asm dst size t w).1
            ≡ some (
                if asm_has_avx2_support
                then asm.asm_avx2_memzero_nt dst size w
                else asm.asm_sse2_memzero_nt dst size w))
        × ((disping_read_tsc_auto asm t w).1
            ≡ some (
                if asm_has_rdtscp_support
                then asm.asm_read_tsc_fast_serialized w
                else asm.asm_read_tsc_serialized w))
        × Fits (disping_fast_checksum_auto asm buffer t w).0
        × Fits (disping_fast_memzero_auto asm dst size t w).0
        × Fits (disping_read_tsc_auto asm t w).0
  unfolding disping_fast_checksum_auto disping_fast_memzero_auto disping_read_tsc_auto
      init_dispatch_table call_checksum call_memzero call_tsc
  dispatch-Fits t buffer dst size w f = (
    checksum_called t buffer w f,
    memzero_called t dst size w f,
    tsc_called t w f,
    ready-Fits t.checksum_ptr t f,
    ready-Fits t.memzero_ptr t f,
    ready-Fits t.tsc_ptr t f,
  )
