-- ===== src/Benchmark/Table/Width.antt =====
-- The columns of the table of src/benchmark_runner.cpp.
use Prim.Native.Char.{code}
use Prim.Native.String.{◌++◌}
use text.Mathlib.TextLemmas.{nil-append, cons-append}
use disping.Common.{
  ℕ, zero, suc, ◌+◌, ◌-◌, ◌/◌, ◌%◌, ◌<◌, String, ◌≡◌, refl, List, ◌∷◌, ◌==◌, true, false, ltb,
  if◌then◌else◌, Bool-cases, inl, inr, arith,
}
use disping.Console.Tables.{repeated}
use disping.Benchmark.Table.{encoded, bytes_of, count_starts, char_count, pad_utf8}

-- The number of characters.
abbrev pub characters : String → ℕ
characters String.[] = 0
characters (String.◌∷◌ c s) = characters s + 1

-- A byte 10xxxxxx does not count, and one that starts with 11 does.
count_starts-inner :
    (x : ℕ) (bytes : List ℕ) → count_starts ((0x80 + x % 64) ∷ bytes) ≡ count_starts bytes
unfolding count_starts
count_starts-inner x bytes =
    let e : ((0x80 + x % 64) / 64 % 4 == 2) ≡ true = ground arith in rw e refl

count_starts-lead :
    (x : ℕ) (bytes : List ℕ) → x < 64 → count_starts ((0xC0 + x) ∷ bytes) ≡ count_starts bytes + 1
unfolding count_starts
count_starts-lead x bytes h = let e : ((0xC0 + x) / 64 % 4 == 2) ≡ false = ground arith in rw e refl

count_starts-small :
    (c : ℕ) (bytes : List ℕ) → c < 0x80 → count_starts (c ∷ bytes) ≡ count_starts bytes + 1
unfolding count_starts
count_starts-small c bytes h = let e : (c / 64 % 4 == 2) ≡ false = ground arith in rw e refl

count_starts-encoded :
    (c : ℕ) (rest : List ℕ) → count_starts (encoded c rest) ≡ count_starts rest + 1
unfolding encoded
count_starts-encoded c rest = elim (Bool-cases (ltb c 0x80)) [
  | inl one ↦ rw one (count_starts-small c rest (ground arith))
  | inr more ↦ elim (Bool-cases (ltb c 0x800)) [
    | inl two ↦
        rw (more, two, count_starts-lead (c / 64) _ (ground arith), count_starts-inner c rest) refl
    | inr more2 ↦ elim (Bool-cases (ltb c 0x1_0000)) [
      | inl three ↦
          let e : 0xE0 + c / 4096 ≡ 0xC0 + (32 + c / 4096) = omega arith in
          rw
            (
              more,
              more2,
              three,
              e,
              count_starts-lead (32 + c / 4096) _ (ground arith),
              count_starts-inner (c / 64) _,
              count_starts-inner c rest,
            )
            refl
      | inr four ↦
          let e : 0xF0 + c / 262144 % 8 ≡ 0xC0 + (48 + c / 262144 % 8) = omega arith in
          rw
            (
              more,
              more2,
              four,
              e,
              count_starts-lead (48 + c / 262144 % 8) _ (omega arith),
              count_starts-inner (c / 4096) _,
              count_starts-inner (c / 64) _,
              count_starts-inner c rest,
            )
            refl
    ]
  ]
]

char_count-characters : (s : String) → char_count s ≡ characters s
unfolding char_count bytes_of count_starts
char_count-characters String.[] = refl
char_count-characters (String.◌∷◌ c s) =
    rw (count_starts-encoded (code c) (bytes_of s), char_count-characters s) refl

characters-append : (s t : String) → characters (s ++ t) ≡ characters s + characters t
characters-append String.[] t = rw nil-append (omega arith)
characters-append (String.◌∷◌ c s) t = rw cons-append (omega (arith, characters-append s t))

characters-repeated : (n : ℕ) → characters (repeated n " ") ≡ n
unfolding repeated
characters-repeated zero = refl
characters-repeated (suc n) =
    rw (characters-append " " (repeated n " ")) (omega (arith, characters-repeated n))

-- PadUtf8, which counts the bytes of the UTF-8 encoding that do not continue a character,
-- gives a text with exactly as many characters as are wanted if the text has fewer, and with
-- as many as it has otherwise.
pub characters-pad_utf8 :
    (str : String) (width : ℕ)
    → characters (pad_utf8 str width)
      ≡ (if ltb (characters str) width then width else characters str)
unfolding pad_utf8
characters-pad_utf8 str width =
    rw (char_count-characters str) (elim (Bool-cases (ltb (characters str) width)) [
      | inl short ↦ rw short (
          let fill = width - characters str in
          rw (characters-append str (repeated fill " "))
            (ground (arith, characters-repeated (width - characters str))))
      | inr full ↦ rw full refl
    ])
