-- ===== src/Dns/Packet.antt =====
-- The name in the query packet of src/dns_optimizer.cpp, read back as RFC 1035 says.
use mathlib.Core.Path.{ap₂}
use disping.Common.{
  ℕ, zero, suc, ◌%◌, ◌≤◌, ◌≡◌, refl, ap, ◌∙◌, false, List, [], ◌∷◌, ◌++◌, All, length, drop, ◌==◌,
  ltb, Option, none, some, length-append, arith, if◌then◌else◌, Bool-cases, inl, inr,
}
use disping.Dns.{push, split_domain, encode_parts}

abbrev take : {A : Type 0} → ℕ → List A → List A
take zero xs = []
take (suc n) [] = []
take (suc n) (x ∷ xs) = x ∷ take n xs

abbrev with_label : List ℕ → Option (List (List ℕ)) → Option (List (List ℕ))
with_label part none = none
with_label part (some parts) = some (part ∷ parts)

-- The labels that a reader of the packet finds up to the root label; `none` where they are more than `fuel`, where the bytes
-- end before, and at a length byte of 64 or more, which is reserved or begins a pointer.
pub read_labels : ℕ → List ℕ → Option (List (List ℕ))
read_labels zero bytes = none
read_labels (suc fuel) [] = none
read_labels (suc fuel) (n ∷ bytes) =
    let more = read_labels fuel (drop n bytes) in
    if n == 0
    then some []
    else if ltb 63 n
    then none
    else if ltb (length bytes) n
    then none
    else with_label (take n bytes) more

-- The labels with dots between them.
pub join_labels : List (List ℕ) → List ℕ
join_labels [] = []
join_labels (part ∷ []) = part
join_labels (part ∷ (next ∷ parts)) = part ++ (b'.' ∷ join_labels (next ∷ parts))

-- The domain that the labels make.
abbrev pub domain_of : Option (List (List ℕ)) → Option (List ℕ)
domain_of none = none
domain_of (some parts) = some (join_labels parts)

take-append : (xs ys : List ℕ) → take (length xs) (xs ++ ys) ≡ xs
take-append [] ys = refl
take-append (x ∷ xs) ys = ap (λ t. x ∷ t) (take-append xs ys)

drop-append : (xs ys : List ℕ) → drop (length xs) (xs ++ ys) ≡ ys
drop-append [] ys = refl
drop-append (x ∷ xs) ys = drop-append xs ys

append_assoc : (xs ys zs : List ℕ) → (xs ++ ys) ++ zs ≡ xs ++ (ys ++ zs)
append_assoc [] ys zs = refl
append_assoc (x ∷ xs) ys zs = ap (λ t. x ∷ t) (append_assoc xs ys zs)

-- A label that RFC 1035 allows: from 1 to 63 bytes.
abbrev pub Fits : List ℕ → Type 0
Fits part = (1 ≤ length part) × (length part ≤ 63)

read_labels-encode_parts :
    (parts : List (List ℕ)) (rest : List ℕ)
    → All Fits parts
    → read_labels (suc (length parts)) (encode_parts parts ++ rest) ≡ some parts
unfolding read_labels encode_parts
read_labels-encode_parts [] rest fits = refl
read_labels-encode_parts (part ∷ parts) rest ((low, high), fits) =
    let e : length part % 256 ≡ length part = omega arith in
    let nonzero : (length part == 0) ≡ false = ground arith in
    let short : ltb 63 (length part) ≡ false = ground arith in
    let bytes = part ++ (encode_parts parts ++ rest) in
    let whole : ltb (length bytes) (length part) ≡ false =
      ground (arith, length-append part (encode_parts parts ++ rest)) in
    rw
      (
        e,
        nonzero,
        append_assoc part (encode_parts parts) rest,
        short,
        whole,
        take-append part (encode_parts parts ++ rest),
        drop-append part (encode_parts parts ++ rest),
        read_labels-encode_parts parts rest fits,
      )
      refl

join_labels-push :
    (c : ℕ) (parts : List (List ℕ)) → join_labels (push c parts) ≡ c ∷ join_labels parts
unfolding join_labels
join_labels-push c [] = refl
join_labels-push c (part ∷ []) = refl
join_labels-push c (part ∷ (next ∷ parts)) = refl

split_cons : (s : List ℕ) → (p : List ℕ) × (ps : List (List ℕ)) × (split_domain s ≡ p ∷ ps)
unfolding split_domain
split_cons [] = ([], [], refl)
split_cons (c ∷ s) =
    let (p, ps, e) = split_cons s in
    elim (Bool-cases (c == b'.')) [
      | inl dot ↦ ([], split_domain s, rw dot refl)
      | inr other ↦ (c ∷ p, ps, rw (other, e) refl)
    ]

join_labels-empty :
    (s : List ℕ) → join_labels ([] ∷ split_domain s) ≡ b'.' ∷ join_labels (split_domain s)
unfolding join_labels
join_labels-empty s = let (p, ps, e) = split_cons s in rw e refl

join_labels-split_domain : (s : List ℕ) → join_labels (split_domain s) ≡ s
unfolding join_labels split_domain
join_labels-split_domain [] = refl
join_labels-split_domain (c ∷ s) = elim (Bool-cases (c == b'.')) [
  | inl dot ↦
      let e : b'.' ≡ c = ground arith in
      rw dot (join_labels-empty s ∙ ap₂ ◌∷◌ e (join_labels-split_domain s))
  | inr other ↦
      rw other (join_labels-push c (split_domain s) ∙ ap (λ t. c ∷ t) (join_labels-split_domain s))
]

-- If each label of the domain has 1 to 63 bytes, the labels in the query packet, read as RFC
-- 1035 says, which takes a length byte from 64 on for no label, and joined with dots, are the
-- domain.
pub join_labels-read_labels :
    (domain rest : List ℕ)
    → All Fits (split_domain domain)
    → domain_of (
        read_labels
          (suc (length (split_domain domain)))
          (encode_parts (split_domain domain) ++ rest))
      ≡ some domain
join_labels-read_labels domain rest fits =
    ap domain_of (read_labels-encode_parts (split_domain domain) rest fits)
    ∙ ap some (join_labels-split_domain domain)
