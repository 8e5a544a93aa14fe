-- ===== src/Benchmark/Checksum.antt =====
-- ScalarChecksum16 of src/benchmark_runner.cpp, on a list of bytes.
pub mod Sum
use disping.Common.{
  ℕ, zero, suc, ◌+◌, ◌-◌, ◌*◌, ◌/◌, ◌%◌, ◌^◌, Option, none, some, List, [], ◌∷◌, ◌==◌,
  if◌then◌else◌,
}

-- The sum of the 16-bit words, the low byte first, with the wrap-around of uint32_t. The last byte of an odd number is shifted
-- by 8 bits.
unfoldable pub add_words : ℕ → List ℕ → ℕ
add_words sum [] = sum
add_words sum (last ∷ []) = (sum + last * 256) % 2 ^ 32
add_words sum (low ∷ high ∷ data') = add_words ((sum + (low + high * 256)) % 2 ^ 32) data'

-- `while (sum >> 16)` on fuel; `none` where the fuel is too little.
unfoldable pub fold_carry : ℕ → ℕ → Option ℕ
fold_carry zero sum = none
fold_carry (suc fuel) sum =
    let rest = fold_carry fuel (sum % 2 ^ 16 + sum / 2 ^ 16) in
    if sum / 2 ^ 16 == 0 then some sum else rest

-- `static_cast<uint16_t>(~sum)` of a sum below 2 ^ 16.
abbrev pub complement : Option ℕ → Option ℕ
complement none = none
complement (some sum) = some (2 ^ 16 - 1 - sum)

-- Three tests of the loop are enough for a sum of 32 bits.
unfoldable pub scalar_checksum16 : List ℕ → Option ℕ
scalar_checksum16 data' = complement (fold_carry 3 (add_words 0 data'))
