-- ===== src/Healer/Repair.antt =====
-- What the repair of loginusers.vdf in src/platform_healer.cpp changes.
use disping.Common.{
  ℕ, zero, suc, ◌+◌, ◌-◌, ◌≤◌, ◌<◌, String, ◌≡◌, ◌≢◌, refl, sym, subst, true, false, ◌⊎◌, inl, inr,
  Option, none, some, List, [], ◌∷◌, ◌++◌, get_elem?, drop, arith, ltb, ◌==◌, if◌then◌else◌,
  Bool-cases,
}
use disping.Windows.Healing.{RegexLib}
use disping.Healer.Steam.{is_empty}
use disping.Healer.Vdf.{
  take, first_at, find_char, last_among, rfind_char, splice, account_pattern, heal_block,
  heal_between, heal_at, heal_content,
}

first_at_sound :
    (c : ℕ) (s : List ℕ) (k i : ℕ)
    → first_at c s k ≡ some i
    → (k ≤ i) × (get_elem? s (i - k) ≡ some c)
unfolding first_at
first_at_sound c [] k i h = absurd (ground arith)
first_at_sound c (x ∷ s) k i h = elim (Bool-cases (x == c)) [
  | inl here ↦ ground arith
  | inr there ↦
      let (le, at) = first_at_sound c s (k + 1) i (rw there at h) in
      let e : i - k ≡ suc (i - (k + 1)) = omega (arith, le) in (omega (arith, le), rw e at)
]

-- No byte before the first one is the same.
first_at-first :
    (c : ℕ) (s : List ℕ) (k i j : ℕ)
    → first_at c s k ≡ some i
    → k ≤ j
    → j < i
    → get_elem? s (j - k) ≢ some c
unfolding first_at
first_at-first c [] k i j h low high = λ e. absurd (ground arith)
first_at-first c (x ∷ s) k i j h low high = elim (Bool-cases (x == c)) [
  | inl here ↦ λ e. absurd (ground arith)
  | inr there ↦ elim (Bool-cases (j == k)) [
    | inl at ↦ let z : j - k ≡ 0 = ground arith in rw z (λ e. absurd (ground arith))
    | inr past ↦
        let z : j - k ≡ suc (j - (k + 1)) = ground arith in
        let more : k + 1 ≤ j = ground arith in
        rw z (first_at-first c s (k + 1) i j (rw there at h) more high)
  ]
]

get_elem?-drop : (s : List ℕ) (n i : ℕ) → n ≤ i → get_elem? (drop n s) (i - n) ≡ get_elem? s i
get_elem?-drop s zero i h = let e : i - 0 ≡ i = omega arith in rw e refl
get_elem?-drop [] (suc n) i h = refl
get_elem?-drop (c ∷ s) (suc n) zero h = absurd (omega arith)
get_elem?-drop (c ∷ s) (suc n) (suc i) h =
    let e : suc i - suc n ≡ i - n = omega arith in rw e (get_elem?-drop s n i (omega arith))

find_char_sound :
    (c pos : ℕ) (s : List ℕ) (i : ℕ)
    → find_char c pos s ≡ some i
    → (pos ≤ i) × (get_elem? s i ≡ some c)
unfolding find_char
find_char_sound c pos s i h =
    let (le, at) = first_at_sound c (drop pos s) pos i h in
    (le, rw (get_elem?-drop s pos i le) at at)

find_char-first :
    (c pos : ℕ) (s : List ℕ) (i j : ℕ)
    → find_char c pos s ≡ some i
    → pos ≤ j
    → j < i
    → get_elem? s j ≢ some c
unfolding find_char
find_char-first c pos s i j h low high =
    let none' = first_at-first c (drop pos s) pos i j h low high in
    rw (get_elem?-drop s pos j low) at none'

-- The last byte is one of those that were looked at, if it is not the best one so far.
last_among_sound :
    (c : ℕ) (s : List ℕ) (n k : ℕ) (best : Option ℕ) (i : ℕ)
    → last_among c s n k best ≡ some i
    → (best ≡ some i) ⊎ ((k ≤ i) × (i < k + n) × (get_elem? s (i - k) ≡ some c))
unfolding last_among
last_among_sound c [] n k best i h = inl h
last_among_sound c (x ∷ s) zero k best i h = inl h
last_among_sound c (x ∷ s) (suc n) k best i h =
    elim (last_among_sound c s n (k + 1) (if x == c then some k else best) i h) [
      | inl old ↦ elim (Bool-cases (x == c)) [
        | inl here ↦ inr (ground arith)
        | inr there ↦ inl (rw there at old)
      ]
      | inr (le, lt, at) ↦
          let e : i - k ≡ suc (i - (k + 1)) = omega (arith, le) in
          inr (omega (arith, le), omega (arith, lt), rw e at)
    ]

-- No byte after the last one is the same.
last_among-last :
    (c : ℕ) (s : List ℕ) (n k : ℕ) (best : Option ℕ) (i j : ℕ)
    → last_among c s n k best ≡ some i
    → k ≤ j
    → j < k + n
    → i < j
    → get_elem? s (j - k) ≢ some c
unfolding last_among
last_among-last c [] n k best i j h low high after = λ e. absurd (ground arith)
last_among-last c (x ∷ s) zero k best i j h low high after = absurd (omega (arith, low, high))
last_among-last c (x ∷ s) (suc n) k best i j h low high after = elim (Bool-cases (j == k)) [
  | inr past ↦
      let z : j - k ≡ suc (j - (k + 1)) = ground arith in
      let more : k + 1 ≤ j = ground arith in
      let less : j < k + 1 + n = omega (arith, high) in
      rw z (last_among-last c s n (k + 1) (if x == c then some k else best) i j h more less after)
  | inl at ↦
      let z : j - k ≡ 0 = ground arith in
      rw z (λ e. elim (last_among_sound c s n (k + 1) (if x == c then some k else best) i h) [
        | inl old ↦ absurd (ground arith)
        | inr (le, lt, there) ↦ absurd (ground arith)
      ])
]

rfind_char-last :
    (c pos : ℕ) (s : List ℕ) (i j : ℕ)
    → rfind_char c pos s ≡ some i
    → i < j
    → j ≤ pos
    → get_elem? s j ≢ some c
unfolding rfind_char
rfind_char-last c pos s i j h after high =
    let less : j < 0 + (pos + 1) = omega (arith, high) in
    let none' = last_among-last c s (pos + 1) 0 none i j h (omega arith) less after in
    let z : j - 0 ≡ j = omega arith in rw z at none'

rfind_char_sound :
    (c pos : ℕ) (s : List ℕ) (i : ℕ)
    → rfind_char c pos s ≡ some i
    → (i ≤ pos) × (get_elem? s i ≡ some c)
unfolding rfind_char
rfind_char_sound c pos s i h = elim (last_among_sound c s (pos + 1) 0 none i h) [
  | inl old ↦ absurd (ground arith)
  | inr (le, lt, at) ↦ let e : i - 0 ≡ i = omega arith in (omega (arith, lt), rw e at at)
]

-- The new text differs from the old one only from the last opening brace at or before the byte `pos` to the first closing
-- brace at or after it.
pub record BlockOnly (pos : ℕ) (content new : List ℕ) : Type 0 where
  pub start : ℕ
  pub finish : ℕ
  pub block : List ℕ
  pub before : start ≤ pos
  pub after : pos ≤ finish
  pub opened : get_elem? content start ≡ some b'{'
  pub closed : get_elem? content finish ≡ some b'}'
  pub last : (i : ℕ) → start < i → i ≤ pos → get_elem? content i ≢ some b'{'
  pub first : (i : ℕ) → pos ≤ i → i < finish → get_elem? content i ≢ some b'}'
  pub spliced : new ≡ take start content ++ (block ++ drop (finish + 1) content)

module _ (regex : RegexLib) where
  heal_between-BlockOnly :
      (content : List ℕ) (pos : ℕ) (start finish : Option ℕ)
      → rfind_char b'{' pos content ≡ start
      → find_char b'}' pos content ≡ finish
      → (heal_between regex content start finish ≡ content)
        ⊎ BlockOnly pos content (heal_between regex content start finish)
  unfolding heal_between splice
  heal_between-BlockOnly content pos none finish s f = inl refl
  heal_between-BlockOnly content pos (some start) none s f = inl refl
  heal_between-BlockOnly content pos (some start) (some finish) s f =
      elim (Bool-cases (ltb start finish)) [
        | inr off ↦ inl (rw off)
        | inl on ↦
            let (before, opened) = rfind_char_sound b'{' pos content start s in
            let (after, closed) = find_char_sound b'}' pos content finish f in
            inr record {
              start = start;
              finish = finish;
              block = heal_block regex (take (finish - start + 1) (drop start content));
              before = before;
              after = after;
              opened = opened;
              closed = closed;
              last = λ i low high. rfind_char-last b'{' pos content start i s low high;
              first = λ i low high. find_char-first b'}' pos content finish i f low high;
              spliced = rw on;
            }
      ]

  heal_at-BlockOnly :
      (content new : List ℕ) (found : Option (ℕ × List ℕ))
      → heal_at regex content found ≡ new
      → (new ≡ content)
        ⊎ (pos : ℕ) × (group : List ℕ) × (found ≡ some (pos, group)) × BlockOnly pos content new
  unfolding heal_at
  heal_at-BlockOnly content new none h = inl (sym h)
  heal_at-BlockOnly content new (some (pos, group)) h =
      subst
        (λ n.
          (n ≡ content)
          ⊎ (p : ℕ) × (g : List ℕ) × (◌≡◌ {A = Option (ℕ × List ℕ)} (some (pos, group))
              (some (p, g)))
            × BlockOnly p content n)
        h
        (elim (heal_between-BlockOnly content pos (rfind_char b'{' pos content)
          (find_char b'}' pos content) refl refl) [
            | inl same ↦ inl same
            | inr block ↦ inr (pos, group, refl, block)
          ])

  -- With an account to log in, and a pattern that is no error, either loginusers.vdf keeps
  -- its text, or the account's pattern is found and the text changes only from the last
  -- opening brace at or before the match to the first closing brace at or after it.
  pub heal_content-BlockOnly :
      (auto_user : String) (content new : List ℕ)
      → is_empty auto_user ≡ false
      → heal_content regex auto_user content ≡ some new
      → (new ≡ content)
        ⊎ (pos : ℕ) × (group : List ℕ) × (regex.search_first
              (account_pattern auto_user)
              true
              content
            ≡ some (pos, group))
          × BlockOnly pos content new
  unfolding heal_content heal_at
  heal_content-BlockOnly auto_user content new user h =
      elim (Bool-cases (regex.accepts (account_pattern auto_user))) [
        | inr off ↦ absurd (cc (rw (user, off) at h))
        | inl on ↦
            heal_at-BlockOnly content new
              (regex.search_first (account_pattern auto_user) true content) (ground arith)
      ]
