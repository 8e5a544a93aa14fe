-- ===== src/Vpn/Match.antt =====
-- The tests of src/vpn_guard.cpp on names: which names they accept, and that case does not matter.
use Prim.Native.String.{◌++◌ as str_append}
use disping.Common.{
  ℕ, String, ◌≡◌, refl, ap, ◌↔◌, ◌⊎◌, inl, inr, Bool, true, ◌&&◌, List, [], ◌∷◌, ◌++◌, arith,
  Bool-cases,
}
use disping.Common.Text.{codes, lower, same, same-eq, has_prefix, contains}
use disping.Windows.Registry.{same_text}
use disping.Vpn.{
  protected_processes, is_one_of, is_process_protected, keywords, has_keyword,
  is_virtual_or_vpn_adapter,
}

-- A member that passes a test.
abbrev pub Some : (String → Type 0) → List String → Type 0
Some P [] = ⊥
Some P (x ∷ xs) = P x ⊎ Some P xs

has_prefix-append : (p rest : List ℕ) → has_prefix p (p ++ rest) ≡ true
unfolding has_prefix
has_prefix-append [] rest = refl
has_prefix-append (x ∷ p) rest = ground (arith, has_prefix-append p rest)

-- A prefix and the rest of the text behind it.
has_prefix-split : (p s : List ℕ) → has_prefix p s ≡ true → (rest : List ℕ) × (s ≡ p ++ rest)
unfolding has_prefix
has_prefix-split [] s h = (s, refl)
has_prefix-split (x ∷ p) [] h = cc
has_prefix-split (x ∷ p) (y ∷ s) h =
    let (rest, e) = has_prefix-split p s (ground arith) in (rest, ground (arith, e))

contains-has_prefix : (needle s : List ℕ) → has_prefix needle s ≡ true → contains needle s ≡ true
unfolding contains
contains-has_prefix needle [] h = h
contains-has_prefix needle (c ∷ s) h = rw h refl

-- `find` succeeds exactly on the texts that hold the needle.
pub contains-append : (needle pre rest : List ℕ) → contains needle (pre ++ (needle ++ rest)) ≡ true
unfolding contains
contains-append needle [] rest =
    contains-has_prefix needle (needle ++ rest) (has_prefix-append needle rest)
contains-append needle (c ∷ pre) rest = ground (arith, contains-append needle pre rest)

pub contains-split :
    (needle s : List ℕ)
    → contains needle s ≡ true
    → (pre rest : List ℕ) × (s ≡ pre ++ (needle ++ rest))
unfolding contains
contains-split needle [] h = let (rest, e) = has_prefix-split needle [] h in ([], rest, e)
contains-split needle (c ∷ s) h = elim (Bool-cases (has_prefix needle (c ∷ s))) [
  | inl here ↦ let (rest, e) = has_prefix-split needle (c ∷ s) here in ([], rest, e)
  | inr later ↦
      let (pre, rest, e) = contains-split needle s (ground arith) in
      (c ∷ pre, rest, ap (λ t. c ∷ t) e)
]

-- The text, its capitals lowered, holds the keyword.
abbrev pub Holds : List ℕ → String → Type 0
Holds text kw = (pre rest : List ℕ) × (text ≡ pre ++ (codes kw ++ rest))

has_keyword→Some :
    (text : List ℕ) (kws : List String) → has_keyword text kws ≡ true → Some (Holds text) kws
unfolding has_keyword
has_keyword→Some text [] h = cc
has_keyword→Some text (kw ∷ kws) h = elim (Bool-cases (contains (codes kw) text)) [
  | inl here ↦ inl (contains-split (codes kw) text here)
  | inr later ↦ inr (has_keyword→Some text kws (ground arith))
]

Some→has_keyword :
    (text : List ℕ) (kws : List String) → Some (Holds text) kws → has_keyword text kws ≡ true
unfolding has_keyword
Some→has_keyword text [] h = elim h [ ]
Some→has_keyword text (kw ∷ kws) (inl (pre, rest, e)) =
    ground (arith, contains-append (codes kw) pre rest)
Some→has_keyword text (kw ∷ kws) (inr more) = ground (arith, Some→has_keyword text kws more)

-- The words that make an adapter a virtual one.
abbrev pub virtual_words : List String
virtual_words =
    "wintun" ∷ "tunnel" ∷ "tap" ∷ "tun" ∷ "vpn" ∷ "wwan" ∷ "wireguard" ∷ "sing-box" ∷ "hiddify"
    ∷ "amnezia" ∷ "openvpn" ∷ "tailscale" ∷ "zerotier" ∷ "hyper-v" ∷ "virtual" ∷ "vmware" ∷ "vbox"
    ∷ "wan miniport" ∷ "loopback" ∷ "pseudo" ∷ []

-- An adapter is taken for a virtual one exactly if its name, a space and its description,
-- with the capitals lowered, hold one of the 20 words, which are written out.
pub is_virtual_or_vpn_adapter_iff :
    (name description : String)
    → (is_virtual_or_vpn_adapter name description ≡ true)
      ↔ Some (Holds (lower (codes (str_append name (str_append " " description))))) virtual_words
unfolding is_virtual_or_vpn_adapter keywords
is_virtual_or_vpn_adapter_iff name description = (
  has_keyword→Some (lower (codes (str_append name (str_append " " description)))) virtual_words,
  Some→has_keyword (lower (codes (str_append name (str_append " " description)))) virtual_words,
)

all_lower : List String → Bool
all_lower [] = true
all_lower (p ∷ list) = same (lower (codes p)) (codes p) && all_lower list

is_one_of→Some :
    (s : String) (list : List String)
    → all_lower list ≡ true
    → is_one_of (lower (codes s)) list ≡ true
    → Some (λ p. same_text s p ≡ true) list
unfolding is_one_of all_lower same_text
is_one_of→Some s [] low h = cc
is_one_of→Some s (p ∷ list) low h =
    let e : lower (codes p) ≡ codes p = same-eq (lower (codes p)) (codes p) (ground arith) in
    elim (Bool-cases (same (lower (codes s)) (codes p))) [
      | inl here ↦ inl (rw e here)
      | inr later ↦ inr (is_one_of→Some s list (ground arith) (ground arith))
    ]

Some→is_one_of :
    (s : String) (list : List String)
    → all_lower list ≡ true
    → Some (λ p. same_text s p ≡ true) list
    → is_one_of (lower (codes s)) list ≡ true
unfolding is_one_of all_lower same_text
Some→is_one_of s [] low h = elim h [ ]
Some→is_one_of s (p ∷ list) low (inl here) =
    let e : lower (codes p) ≡ codes p = same-eq (lower (codes p)) (codes p) (ground arith) in
    let here' : same (lower (codes s)) (codes p) ≡ true = rw e at here in rw here' refl
Some→is_one_of s (p ∷ list) low (inr more) = ground (arith, Some→is_one_of s list)

protected_processes-lower : all_lower protected_processes ≡ true
unfolding all_lower protected_processes lower same
protected_processes-lower = refl

-- A process is protected exactly if its name is one of the list, in capitals or not.
pub is_process_protected_iff :
    (s : String)
    → (is_process_protected s ≡ true) ↔ Some (λ p. same_text s p ≡ true) protected_processes
unfolding is_process_protected
is_process_protected_iff s = (
  is_one_of→Some s protected_processes protected_processes-lower,
  Some→is_one_of s protected_processes protected_processes-lower,
)
