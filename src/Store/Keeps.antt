-- ===== src/Store/Keeps.antt =====
-- A value at another place, across the functions of src/registry_util.cpp.
use disping.Common.{ℕ, String, ◌≡◌, ◌∙◌, false, Option, arith}
use disping.Common.State.Keeps.{Keeps, keeps_rules}
use disping.Windows.Registry.{Root, Value, Place, place, alias}
use disping.Store.{RegistryStore}

module _ {W : Type 0} (store : RegistryStore W) (p : Place) (v : Option Value) where
  -- The place holds the value.
  abbrev pub Holds : W → Type 0
  Holds w = store.value w p ≡ v

  pub set_dword-Holds :
      (r : Root) (k n : String) (d : ℕ)
      → alias (place r k n) p ≡ false
      → Keeps Holds (store.set_dword r k n d)
  set_dword-Holds r k n d other = record {
    at = λ w h. ground (arith, store.set_dword-values r k n d w p);
  }

  pub set_string-Holds :
      (r : Root) (k n s : String)
      → alias (place r k n) p ≡ false
      → Keeps Holds (store.set_string r k n s)
  set_string-Holds r k n s other = record {
    at = λ w h. ground (arith, store.set_string-values r k n s w p);
  }

  pub delete_value-Holds :
      (r : Root) (k n : String)
      → alias (place r k n) p ≡ false
      → Keeps Holds (store.delete_value r k n)
  delete_value-Holds r k n other = record {
    at = λ w h. ground (arith, store.delete_value-values r k n w p);
  }

  pub get_dword-Holds : (r : Root) (k n : String) → Keeps Holds (store.get_dword r k n)
  get_dword-Holds r k n = record { at = λ w h. store.get_dword-values r k n w p ∙ h }

  pub get_string-Holds : (r : Root) (k n : String) → Keeps Holds (store.get_string r k n)
  get_string-Holds r k n = record { at = λ w h. store.get_string-values r k n w p ∙ h }

  pub enumerate-Holds : (r : Root) (k : String) → Keeps Holds (store.enumerate_sub_keys r k)
  enumerate-Holds r k = record { at = λ w h. store.enumerate_sub_keys-values r k w p ∙ h }

  pub admin-Holds : Keeps Holds store.is_running_as_admin
  admin-Holds = record { at = λ w h. store.is_running_as_admin-values w p ∙ h }

pub ruleset holds_rules = (
  keeps_rules, set_dword-Holds, set_string-Holds, delete_value-Holds, get_dword-Holds,
  get_string-Holds, enumerate-Holds, admin-Holds,
)
