-- ===== src/Tests/Machine.antt =====
-- A registry in memory, with room for one open handle: an instance of the interface of
-- Windows/Registry.antt.
use disping.Common.{
  ℕ, ◌≤◌, String, ◌≡◌, refl, true, ◌&&◌, Option, none, some, List, [], ◌∷◌, get_elem?, arith, ◌==◌,
  leb, if◌then◌else◌,
}
use disping.Common.State.{State}
use disping.Common.Text.{codes, lower, same-eq}
use disping.Windows.Registry.{
  RegistryApi, RegistryLaws, RegistryView, Opens, Quiet, Root, Value, Access, Place, place, alias,
  same_text, same_root, size, binary, key_set_value, key_query_value, key_enumerate, hklm, hkcu,
}

pub record Machine : Type 0 where
  pub entries : List (Place × Value)
  pub names : List String
  pub slot : Option (Root × String × Access)

unfoldable pub lookup : List (Place × Value) → Place → Option Value
lookup [] p = none
lookup ((q, v) ∷ rest) p = if alias q p then some v else lookup rest p

unfoldable pub erase : Place → List (Place × Value) → List (Place × Value)
erase p [] = []
erase p ((q, v) ∷ rest) = if alias p q then erase p rest else (q, v) ∷ erase p rest

abbrev pub open_key : Root → String → Access → State Machine (ℕ × ℕ)
open_key r k a w = elim w.slot [
  | none ↦ ((0, 1), record w { slot = some (r, k, a) })
  | some _ ↦ ((4, 0), w)
]

abbrev pub target_of : Machine → ℕ → Option (Root × String × Access)
target_of w h = if h == 1 then w.slot else none

-- The key of a handle that was opened for the given kind of access.
abbrev pub for_writing : Option (Root × String × Access) → Option (Root × String)
for_writing (some (r, k, key_set_value)) = some (r, k)
for_writing _ = none

abbrev pub for_reading : Option (Root × String × Access) → Option (Root × String)
for_reading (some (r, k, key_query_value)) = some (r, k)
for_reading _ = none

abbrev pub for_listing : Option (Root × String × Access) → Option (Root × String)
for_listing (some (r, k, key_enumerate)) = some (r, k)
for_listing _ = none

unfoldable pub set_entry : ℕ → String → Value → State Machine ℕ
set_entry h n v w = elim (for_writing (target_of w h)) [
  | none ↦ (5, w)
  | some (r, k) ↦ (0, record w { entries = (place r k n, v) ∷ w.entries })
]

unfoldable pub delete_entry : ℕ → String → State Machine ℕ
delete_entry h n w = elim (for_writing (target_of w h)) [
  | none ↦ (5, w)
  | some (r, k) ↦ elim (lookup w.entries (place r k n)) [
    | none ↦ (2, w)
    | some _ ↦ (0, record w { entries = erase (place r k n) w.entries })
  ]
]

unfoldable pub query_entry : ℕ → String → ℕ → State Machine (ℕ × Value)
query_entry h n c w = elim (for_reading (target_of w h)) [
  | none ↦ ((5, binary 0), w)
  | some (r, k) ↦ elim (lookup w.entries (place r k n)) [
    | none ↦ ((2, binary 0), w)
    | some v ↦ if leb (size v) c then ((0, v), w) else ((234, binary 0), w)
  ]
]

unfoldable pub enum_entry : ℕ → ℕ → ℕ → State Machine (ℕ × String × ℕ)
enum_entry h i n w = elim (for_listing (target_of w h)) [
  | none ↦ ((5, "", n), w)
  | some _ ↦ elim (get_elem? w.names i) [
    | none ↦ ((259, "", n), w)
    | some name ↦ if leb 256 n then ((0, name, 8), w) else ((234, "", n), w)
  ]
]

abbrev pub machine : RegistryApi Machine
machine = record {
  reg_create_key_ex = open_key;
  reg_open_key_ex = open_key;
  reg_close_key = λ h w. (0, if h == 1 then record w { slot = none } else w);
  reg_set_value_ex = set_entry;
  reg_query_value_ex = query_entry;
  reg_query_presence = λ h n w. (2, w);
  reg_delete_value = delete_entry;
  reg_enum_key_ex = enum_entry;
  allocate_admin_sid = λ w. (true, w);
  check_token_membership = λ w. (true, w);
  free_sid = λ w. (tt, w);
}

abbrev pub view_of : RegistryView Machine
view_of = record {
  value = λ w p. lookup w.entries p;
  target = target_of;
  subkeys = λ w r k. w.names;
}

same_root_trans : (r s t : Root) → same_root r s ≡ true → same_root t r ≡ same_root t s
same_root_trans hklm hklm t h = refl
same_root_trans hkcu hkcu t h = refl
same_root_trans hklm hkcu t h = cc
same_root_trans hkcu hklm t h = cc

same_text_trans : (a b c : String) → same_text a b ≡ true → same_text c a ≡ same_text c b
unfolding same_text
same_text_trans a b c h = rw (same-eq (lower (codes a)) (lower (codes b)) h) refl

alias_trans : (p q e : Place) → alias p q ≡ true → alias e p ≡ alias e q
unfolding alias
alias_trans p q e h = ground (
  arith,
  same_text_trans p.name q.name e.name,
  same_text_trans p.key q.key e.key,
  same_root_trans p.root q.root e.root,
)

pub lookup-alias :
    (list : List (Place × Value)) (p q : Place) → alias p q ≡ true → lookup list p ≡ lookup list q
unfolding lookup
lookup-alias [] p q h = refl
lookup-alias ((e, v) ∷ rest) p q h = rw (alias_trans p q e h, lookup-alias rest p q h) refl

lookup-erase :
    (list : List (Place × Value)) (p q : Place)
    → lookup (erase p list) q ≡ (if alias p q then none else lookup list q)
unfolding lookup erase
lookup-erase [] p q = ground arith
lookup-erase ((e, v) ∷ rest) p q =
    ground (arith, lookup-erase rest p q, alias_trans e q p, alias_trans p q e)

pub erase_values :
    (h : ℕ) (n : String) (w : Machine) (r : Root) (k : String) (p : Place)
    → target_of w h ≡ some (r, k, key_set_value)
    → lookup (delete_entry h n w).1.entries p
      ≡ (if (delete_entry h n w).0 == 0 && alias (place r k n) p then none else lookup w.entries p)
unfolding delete_entry
erase_values h n w r k p t = ground (arith, lookup-erase w.entries (place r k n) p)

pub delete_targets :
    (h : ℕ) (n : String) (w : Machine) (j : ℕ) → target_of (delete_entry h n w).1 j ≡ target_of w j
unfolding delete_entry
delete_targets h n w j = ground arith

pub opens : (r : Root) (k : String) (a : Access) → Opens view_of r k a (open_key r k a)
opens r k a = record {
  values = λ w p. ground arith;
  subkeys = λ w. ground arith;
  targets = λ w h. ground arith;
  unused = λ w ok. ground arith;
}

pub query_quiet : (h : ℕ) (n : String) (c : ℕ) (w : Machine) → (query_entry h n c w).1 ≡ w
unfolding query_entry
query_quiet h n c w = ground arith

pub enum_quiet : (h i n : ℕ) (w : Machine) → (enum_entry h i n w).1 ≡ w
unfolding enum_entry
enum_quiet h i n w = ground arith

-- A call that returns the world as it was.
pub still_Quiet :
    {A : Type 0} (call : State Machine A) → ((w : Machine) → (call w).1 ≡ w) → Quiet view_of call
still_Quiet call still = record {
  values = λ w p. rw (still w) refl;
  targets = λ w h. rw (still w) refl;
}

pub set_values :
    (h : ℕ) (n : String) (v : Value) (w : Machine) (r : Root) (k : String) (p : Place)
    → target_of w h ≡ some (r, k, key_set_value)
    → lookup (set_entry h n v w).1.entries p
      ≡ (if (set_entry h n v w).0 == 0 && alias (place r k n) p then some v else lookup w.entries p)
unfolding set_entry lookup
set_values h n v w r k p t = ground arith

pub set_targets :
    (h : ℕ) (n : String) (v : Value) (w : Machine) (j : ℕ)
    → target_of (set_entry h n v w).1 j ≡ target_of w j
unfolding set_entry
set_targets h n v w j = ground arith

pub query_found :
    (h : ℕ) (n : String) (c : ℕ) (w : Machine) (r : Root) (k : String) (v : Value)
    → target_of w h ≡ some (r, k, key_query_value)
    → lookup w.entries (place r k n) ≡ some v
    → size v ≤ c
    → (query_entry h n c w).0 ≡ (0, v)
unfolding query_entry
query_found h n c w r k v t there fits = ground arith

pub query_sound :
    (h : ℕ) (n : String) (c : ℕ) (w : Machine) (r : Root) (k : String)
    → target_of w h ≡ some (r, k, key_query_value)
    → (query_entry h n c w).0.0 ≡ 0
    → lookup w.entries (place r k n) ≡ some (query_entry h n c w).0.1
unfolding query_entry
query_sound h n c w r k t ok = ground arith

unfoldable pub machine_laws : RegistryLaws machine
unfolding enum_entry
machine_laws = record {
  view = view_of;
  value_alias = λ w p q h. lookup-alias w.entries p q h;
  creates = λ r k a. (opens r k a).values;
  create_targets = λ r k a. (opens r k a).targets;
  create_unused = λ r k a. (opens r k a).unused;
  opens = opens;
  close_values = λ h w p. ground arith;
  close_targets = λ h w j. ground arith;
  set_values = set_values;
  set_targets = set_targets;
  delete_values = erase_values;
  delete_targets = delete_targets;
  query = λ h n c. still_Quiet (query_entry h n c) (query_quiet h n c);
  query_presence = λ h n. still_Quiet (machine.reg_query_presence h n) (λ w. refl);
  query_found = query_found;
  query_sound = query_sound;
  enumerates = λ h i n. still_Quiet (enum_entry h i n) (enum_quiet h i n);
  enum_subkeys = λ h i n w r k. rw (enum_quiet h i n w) refl;
  enum_found = λ h i w r k name t there. (ground arith, ground arith);
  enum_end = λ h i n w r k t there. λ ok. ground arith;
  allocates = still_Quiet machine.allocate_admin_sid (λ w. refl);
  checks = still_Quiet machine.check_token_membership (λ w. refl);
  frees = still_Quiet machine.free_sid (λ w. refl);
}
