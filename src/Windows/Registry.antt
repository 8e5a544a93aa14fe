-- ===== src/Windows/Registry.antt =====
-- The registry functions of advapi32 that src/registry_util.cpp calls. Handles and status codes
-- are numbers, and status 0 is ERROR_SUCCESS. A stored value carries its type; the four bytes of a
-- REG_DWORD are its number.
use disping.Common.{
  ℕ, ◌+◌, ◌≤◌, String, ◌≡◌, refl, ◌≢◌, Bool, true, false, ◌&&◌, Option, none, some, List, get_elem?,
  ◌==◌, if◌then◌else◌,
}
use disping.Common.State.{State}
use disping.Common.Text.{codes, lower, same, same_refl, same-eq}
use Prim.Native.String.{len}

-- HKEY_LOCAL_MACHINE and HKEY_CURRENT_USER.
pub data Root : Type 0 where
  hklm hkcu : Root

pub data Value : Type 0 where
  dword : ℕ → Value
  sz expand_sz : String → Value
  binary : ℕ → Value

pub data Access : Type 0 where
  key_set_value key_query_value key_enumerate key_read : Access

-- The place of a value: root, key path and value name.
pub record Place : Type 0 where
  pub root : Root
  pub key : String
  pub name : String

abbrev pub place : Root → String → String → Place
place r k n = record { root = r; key = k; name = n }

abbrev pub same_root : Root → Root → Bool
same_root hklm hklm = true
same_root hkcu hkcu = true
same_root _ _ = false

-- Names in the registry are compared without regard to case.
unfoldable pub same_text : String → String → Bool
unfolding lower same
same_text a b = same (lower (codes a)) (lower (codes b))

unfoldable pub alias : Place → Place → Bool
unfolding same_text
alias a b = same_text a.name b.name && (same_root a.root b.root && same_text a.key b.key)

pub same_text_refl : (a : String) → same_text a a ≡ true
unfolding same_text
same_text_refl a = same_refl (lower (codes a))

-- Two names that are both the same as a third are the same.
pub same_text-join :
    (a b c : String) → same_text a c ≡ true → same_text b c ≡ true → same_text a b ≡ true
unfolding same_text
same_text-join a b c p q =
    rw
      (same-eq (lower (codes a)) (lower (codes c)) p, same-eq (lower (codes b)) (lower (codes c)) q)
      (same_refl (lower (codes c)))

same_root_refl : (r : Root) → same_root r r ≡ true
same_root_refl hklm = refl
same_root_refl hkcu = refl

pub alias_refl : (p : Place) → alias p p ≡ true
unfolding alias
alias_refl p = rw (same_text_refl p.name, same_root_refl p.root, same_text_refl p.key)

pub record RegistryApi (W : Type 0) : Type 0 where
  -- status and handle
  pub reg_create_key_ex : Root → String → Access → State W (ℕ × ℕ)
  pub reg_open_key_ex : Root → String → Access → State W (ℕ × ℕ)
  pub reg_close_key : ℕ → State W ℕ
  pub reg_set_value_ex : ℕ → String → Value → State W ℕ
  -- status and value, read into a buffer of the given size
  pub reg_query_value_ex : ℕ → String → ℕ → State W (ℕ × Value)
  -- the query with no buffer, which reports only whether the value is there
  pub reg_query_presence : ℕ → String → State W ℕ
  pub reg_delete_value : ℕ → String → State W ℕ
  -- handle, index and the size of the buffer; status, name of the subkey and the number that is
  -- written where the size stood
  pub reg_enum_key_ex : ℕ → ℕ → ℕ → State W (ℕ × String × ℕ)
  -- AllocateAndInitializeSid for the administrators, CheckTokenMembership (the BOOL that it
  -- writes), FreeSid
  pub allocate_admin_sid : State W Bool
  pub check_token_membership : State W Bool
  pub free_sid : State W Unit

-- The bytes that a value takes in a query's buffer.
abbrev pub size : Value → ℕ
size (dword n) = 4
size (sz s) = len s + 1
size (expand_sz s) = len s + 1
size (binary n) = n

-- What can be observed of the registry: the value at a place, the key and the rights of an open
-- handle, the names of the subkeys of a key.
pub record RegistryView (W : Type 0) : Type 0 where
  pub value : W → Place → Option Value
  pub target : W → ℕ → Option (Root × String × Access)
  pub subkeys : W → Root → String → List String

-- A call that changes nothing of this.
pub record Quiet {W A : Type 0} (view : RegistryView W) (call : State W A) : Type 0 where
  pub values : (w : W) (p : Place) → view.value (call w).1 p ≡ view.value w p
  pub targets : (w : W) (h : ℕ) → view.target (call w).1 h ≡ view.target w h

-- A call that opens a handle if its status is 0, a handle that was not in use.
pub record Opens {W : Type 0} (view : RegistryView W) (r : Root) (k : String) (a : Access)
    (call : State W (ℕ × ℕ)) : Type 0 where
  pub values : (w : W) (p : Place) → view.value (call w).1 p ≡ view.value w p
  pub subkeys : (w : W) → view.subkeys (call w).1 r k ≡ view.subkeys w r k
  pub targets :
      (w : W) (h : ℕ)
      → view.target (call w).1 h
        ≡ (if (call w).0.0 == 0 && h == (call w).0.1 then some (r, k, a) else view.target w h)
  pub unused : (w : W) → (call w).0.0 ≡ 0 → view.target w (call w).0.1 ≡ none

-- What the documentation promises of a successful call and of a failed one.
pub record RegistryLaws {W : Type 0} (api : RegistryApi W) : Type 0 where
  pub view : RegistryView W
  pub value_alias : (w : W) (p q : Place) → alias p q ≡ true → view.value w p ≡ view.value w q
  pub creates :
      (r : Root) (k : String) (a : Access) (w : W) (p : Place)
      → view.value (api.reg_create_key_ex r k a w).1 p ≡ view.value w p
  pub create_targets :
      (r : Root) (k : String) (a : Access) (w : W) (h : ℕ)
      → view.target (api.reg_create_key_ex r k a w).1 h ≡ (
          if (api.reg_create_key_ex r k a w).0.0 == 0 && h == (api.reg_create_key_ex r k a w).0.1
          then some (r, k, a)
          else view.target w h)
  pub create_unused :
      (r : Root) (k : String) (a : Access) (w : W)
      → (api.reg_create_key_ex r k a w).0.0 ≡ 0
      → view.target w (api.reg_create_key_ex r k a w).0.1 ≡ none
  pub opens : (r : Root) (k : String) (a : Access) → Opens view r k a (api.reg_open_key_ex r k a)
  pub close_values :
      (h : ℕ) (w : W) (p : Place) → view.value (api.reg_close_key h w).1 p ≡ view.value w p
  pub close_targets :
      (h : ℕ) (w : W) (j : ℕ)
      → view.target (api.reg_close_key h w).1 j ≡ (if j == h then none else view.target w j)
  pub set_values :
      (h : ℕ) (n : String) (v : Value) (w : W) (r : Root) (k : String) (p : Place)
      → view.target w h ≡ some (r, k, key_set_value)
      → view.value (api.reg_set_value_ex h n v w).1 p ≡ (
          if (api.reg_set_value_ex h n v w).0 == 0 && alias (place r k n) p
          then some v
          else view.value w p)
  pub set_targets :
      (h : ℕ) (n : String) (v : Value) (w : W) (j : ℕ)
      → view.target (api.reg_set_value_ex h n v w).1 j ≡ view.target w j
  pub delete_values :
      (h : ℕ) (n : String) (w : W) (r : Root) (k : String) (p : Place)
      → view.target w h ≡ some (r, k, key_set_value)
      → view.value (api.reg_delete_value h n w).1 p ≡ (
          if (api.reg_delete_value h n w).0 == 0 && alias (place r k n) p
          then none
          else view.value w p)
  pub delete_targets :
      (h : ℕ) (n : String) (w : W) (j : ℕ)
      → view.target (api.reg_delete_value h n w).1 j ≡ view.target w j
  pub query : (h : ℕ) (n : String) (c : ℕ) → Quiet view (api.reg_query_value_ex h n c)
  pub query_presence : (h : ℕ) (n : String) → Quiet view (api.reg_query_presence h n)
  -- a value that fits into the buffer is found, and what is found is the value
  pub query_found :
      (h : ℕ) (n : String) (c : ℕ) (w : W) (r : Root) (k : String) (v : Value)
      → view.target w h ≡ some (r, k, key_query_value)
      → view.value w (place r k n) ≡ some v
      → size v ≤ c
      → (api.reg_query_value_ex h n c w).0 ≡ (0, v)
  pub query_sound :
      (h : ℕ) (n : String) (c : ℕ) (w : W) (r : Root) (k : String)
      → view.target w h ≡ some (r, k, key_query_value)
      → (api.reg_query_value_ex h n c w).0.0 ≡ 0
      → view.value w (place r k n) ≡ some (api.reg_query_value_ex h n c w).0.1
  pub enumerates : (h i n : ℕ) → Quiet view (api.reg_enum_key_ex h i n)
  pub enum_subkeys :
      (h i n : ℕ) (w : W) (r : Root) (k : String)
      → view.subkeys (api.reg_enum_key_ex h i n w).1 r k ≡ view.subkeys w r k
  -- A name has at most 255 characters, and so fits into a buffer of 256.
  pub enum_found :
      (h i : ℕ) (w : W) (r : Root) (k name : String)
      → view.target w h ≡ some (r, k, key_enumerate)
      → get_elem? (view.subkeys w r k) i ≡ some name
      → ((api.reg_enum_key_ex h i 256 w).0.0 ≡ 0) × ((api.reg_enum_key_ex h i 256 w).0.1 ≡ name)
  pub enum_end :
      (h i n : ℕ) (w : W) (r : Root) (k : String)
      → view.target w h ≡ some (r, k, key_enumerate)
      → get_elem? (view.subkeys w r k) i ≡ none
      → (api.reg_enum_key_ex h i n w).0.0 ≢ 0
  pub allocates : Quiet view api.allocate_admin_sid
  pub checks : Quiet view api.check_token_membership
  pub frees : Quiet view api.free_sid
