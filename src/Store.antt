-- ===== src/Store.antt =====
-- What the optimizers see of src/registry_util.cpp: its operations, and the laws that they rely on.
pub mod Keeps
use disping.Common.{ℕ, String, ◌≡◌, Bool, true, ◌&&◌, Option, none, some, List, if◌then◌else◌}
use disping.Common.State.{State}
use disping.Windows.Registry.{
  RegistryApi, RegistryLaws, Root, Value, Place, place, alias, dword, sz,
}
use disping.Registry
use disping.Registry.Values
use disping.Registry.Values.{stored_text}

pub record RegistryStore (W : Type 0) : Type 0 where
  pub set_dword : Root → String → String → ℕ → State W Bool
  pub get_dword : Root → String → String → State W (Option ℕ)
  pub set_string : Root → String → String → String → State W Bool
  pub get_string : Root → String → String → State W (Option String)
  pub delete_value : Root → String → String → State W Bool
  pub enumerate_sub_keys : Root → String → State W (List String)
  pub is_running_as_admin : State W Bool
  pub value : W → Place → Option Value
  pub can_read : W → Root → String → Bool
  pub value_alias : (w : W) (p q : Place) → alias p q ≡ true → value w p ≡ value w q
  pub set_dword-values :
      (r : Root) (k n : String) (v : ℕ) (w : W) (p : Place)
      → let (done, w') = set_dword r k n v w in
        value w' p ≡ (if done && alias (place r k n) p then some (dword v) else value w p)
  pub set_string-values :
      (r : Root) (k n v : String) (w : W) (p : Place)
      → let (done, w') = set_string r k n v w in
        value w' p ≡ (if done && alias (place r k n) p then some (sz v) else value w p)
  pub delete_value-values :
      (r : Root) (k n : String) (w : W) (p : Place)
      → let (done, w') = delete_value r k n w in
        value w' p ≡ (if done && alias (place r k n) p then none else value w p)
  pub get_dword-values :
      (r : Root) (k n : String) (w : W) (p : Place) → value (get_dword r k n w).1 p ≡ value w p
  pub get_dword-found :
      (r : Root) (k n : String) (w : W) (d : ℕ)
      → can_read w r k ≡ true
      → value w (place r k n) ≡ some (dword d)
      → (get_dword r k n w).0 ≡ some d
  pub get_dword_sound :
      (r : Root) (k n : String) (w : W) (d : ℕ)
      → (get_dword r k n w).0 ≡ some d
      → value w (place r k n) ≡ some (dword d)
  pub get_string-values :
      (r : Root) (k n : String) (w : W) (p : Place) → value (get_string r k n w).1 p ≡ value w p
  pub get_string_sound :
      (r : Root) (k n s : String) (w : W)
      → (get_string r k n w).0 ≡ some s
      → stored_text (value w (place r k n)) ≡ some s
  pub enumerate_sub_keys-values :
      (r : Root) (k : String) (w : W) (p : Place) → value (enumerate_sub_keys r k w).1 p ≡ value w p
  pub is_running_as_admin-values :
      (w : W) (p : Place) → value (is_running_as_admin w).1 p ≡ value w p

-- The functions of `RegistryUtil` have these laws.
abbrev pub registry_util : {W : Type 0} {api : RegistryApi W} → RegistryLaws api → RegistryStore W
registry_util {api} laws = record {
  set_dword = Registry.set_dword api;
  get_dword = Registry.get_dword api;
  set_string = Registry.set_string api;
  get_string = Registry.get_string api;
  delete_value = Registry.delete_value api;
  enumerate_sub_keys = Registry.enumerate_sub_keys api;
  is_running_as_admin = Registry.is_running_as_admin api;
  value = laws.view.value;
  can_read = Values.can_read laws;
  value_alias = laws.value_alias;
  set_dword-values = Values.set_dword-values laws;
  set_string-values = Values.set_string-values laws;
  delete_value-values = Values.delete_value-values laws;
  get_dword-values = Values.get_dword-values laws;
  get_dword-found = Values.get_dword-found laws;
  get_dword_sound = Values.get_dword_sound laws;
  get_string-values = Values.get_string-values laws;
  get_string_sound = Values.get_string_sound laws;
  enumerate_sub_keys-values = Values.enumerate_sub_keys-values laws;
  is_running_as_admin-values = Values.is_running_as_admin-values laws;
}
