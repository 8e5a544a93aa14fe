-- ===== src/Benchmark/Checksum/Sum.antt =====
-- The checksum of src/benchmark_runner.cpp as a sum modulo 65535.
use disping.Common.{
  ℕ, suc, ◌+◌, ◌-◌, ◌*◌, ◌/◌, ◌%◌, ◌^◌, ◌≤◌, ◌<◌, ◌≡◌, refl, true, false, Option, some, List, [],
  ◌∷◌, length, All, arith, ◌==◌, Bool-cases, inl, inr,
}
use disping.Benchmark.Checksum.{add_words, fold_carry, scalar_checksum16}

-- The sum of the words with no bound.
abbrev pub words_sum : List ℕ → ℕ
words_sum [] = 0
words_sum (last ∷ []) = last * 256
words_sum (low ∷ high ∷ data') = low + high * 256 + words_sum data'

abbrev pub IsByte : ℕ → Type 0
IsByte b = b < 256

fold_step :
    (fuel sum : ℕ)
    → (sum / 2 ^ 16 == 0) ≡ false
    → fold_carry (suc fuel) sum ≡ fold_carry fuel (sum % 2 ^ 16 + sum / 2 ^ 16)
unfolding fold_carry
fold_step fuel sum h = ground arith

fold_stop : (fuel sum : ℕ) → (sum / 2 ^ 16 == 0) ≡ true → fold_carry (suc fuel) sum ≡ some sum
unfolding fold_carry
fold_stop fuel sum h = ground arith

-- A sum and what is left of it.
abbrev Folded : ℕ → Option ℕ → Type 0
Folded sum r = (v : ℕ) × (r ≡ some v) × (v < 2 ^ 16) × (v % 65535 ≡ sum % 65535)

fold_1 : (fuel sum : ℕ) → sum < 2 ^ 16 → Folded sum (fold_carry (suc fuel) sum)
fold_1 fuel sum h = (sum, fold_stop fuel sum (ground arith), h, refl)

fold_2 : (fuel sum : ℕ) → sum < 2 ^ 17 - 1 → Folded sum (fold_carry (suc (suc fuel)) sum)
fold_2 fuel sum h = elim (Bool-cases (sum / 2 ^ 16 == 0)) [
  | inl small ↦ (sum, fold_stop (suc fuel) sum small, ground arith, refl)
  | inr large ↦
      let (v, e, lt, same) = fold_1 fuel (sum % 2 ^ 16 + sum / 2 ^ 16) (omega arith) in
      (v, rw (fold_step (suc fuel) sum large) e, lt, omega (arith, same))
]

fold_3 : (sum : ℕ) → sum < 2 ^ 32 → Folded sum (fold_carry 3 sum)
fold_3 sum h = elim (Bool-cases (sum / 2 ^ 16 == 0)) [
  | inl small ↦ (sum, fold_stop 2 sum small, ground arith, refl)
  | inr large ↦
      let (v, e, lt, same) = fold_2 0 (sum % 2 ^ 16 + sum / 2 ^ 16) (omega arith) in
      (v, rw (fold_step 2 sum large) e, lt, omega (arith, same))
]

add_words-sum :
    (acc : ℕ) (data' : List ℕ)
    → acc + words_sum data' < 2 ^ 32
    → add_words acc data' ≡ acc + words_sum data'
unfolding add_words
add_words-sum acc [] h = omega arith
add_words-sum acc (last ∷ []) h = omega arith
add_words-sum acc (low ∷ high ∷ data') h =
    let e : (acc + (low + high * 256)) % 2 ^ 32 ≡ acc + (low + high * 256) = omega arith in
    rw e (omega (arith, add_words-sum (acc + (low + high * 256)) data'))

words_sum-bound :
    (data' : List ℕ) → All IsByte data' → words_sum data' * 2 ≤ (length data' + 1) * 65535
words_sum-bound [] all = omega arith
words_sum-bound (last ∷ []) all = omega (arith, all.0)
words_sum-bound (low ∷ high ∷ data') all =
    omega (arith, all.0, all.1.0, words_sum-bound data' all.1.1)

-- For up to 131072 bytes ScalarChecksum16 returns a 16-bit number within three tests of its
-- last loop, and the number and the sum of the 16-bit words add up to a multiple of 65535.
pub scalar_checksum16-words_sum :
    (data' : List ℕ)
    → All IsByte data'
    → length data' ≤ 131072
    → (c : ℕ) × (scalar_checksum16 data' ≡ some c)
      × (c < 2 ^ 16)
      × ((c + words_sum data') % 65535 ≡ 0)
unfolding scalar_checksum16
scalar_checksum16-words_sum data' bytes short =
    let bound = words_sum-bound data' bytes in
    let (v, e, lt, same) = fold_3 (words_sum data') (omega (arith, bound, short)) in
    let sum = add_words-sum 0 data' (omega (arith, bound, short)) in
    let sum' : add_words 0 data' ≡ words_sum data' = omega (arith, sum) in
    (2 ^ 16 - 1 - v, rw (sum', e) refl, omega (arith, lt), omega (arith, same, lt))
