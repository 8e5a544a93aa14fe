-- ===== src/Adapter/Shield.antt =====
-- src/adapter_optimizer.cpp and the driver key of a virtual or VPN adapter: the parts that every
-- optimization shares.
pub mod Steps
pub mod Wlan
use disping.Common.{
  ℕ, String, ◌≡◌, refl, sym, ◌∙◌, Bool, true, false, Option, none, some, List, [], ◌∷◌, All, arith,
  Bool-cases, Option-cases, inl, inr, if◌then◌else◌,
}
use disping.Common.State.{State, ◌>>=◌, count_each}
use disping.Common.State.Keeps.{
  Keeps, pure-Keeps, bind-Keeps, bind-Keeps_of, if-Keeps, count_each-Keeps, keeps_rules,
}
use disping.Windows.Registry.{
  Place, place, alias, same_root, same_text, same_text-join, same_text_refl, hklm,
}
use disping.Windows.System.{WlanApi}
use disping.Registry.Values.{stored_text}
use disping.Store.{RegistryStore}
use disping.Vpn.{is_virtual_or_vpn_adapter}
use disping.Adapter.{
  root_class, class_key, class_keys, get_adapter_class_keys, moderation_off,
  disable_interrupt_moderation, offload_off, disable_large_send_offload, energy_saving_off,
  disable_energy_saving, buffers_up, maximize_adapter_buffers, flow_control_off,
  disable_flow_control,
}
use disping.Adapter.Wifi.{
  is_wifi_adapter, wifi_writes, tune_if_wifi, optimize_wifi_adapters, set_interface, set_interfaces,
  switch_background_scan, set_wifi_background_scan, optimize_all_network_adapters,
}

module _ {W : Type 0} (store : RegistryStore W) where
  open store use {value}

  -- A place below the key K of HKEY_LOCAL_MACHINE.
  abbrev pub Below : String → Place → Type 0
  Below K p = (same_root hklm p.root ≡ true) × (same_text K p.key ≡ true)

  -- Everything below K is as it was in w0.
  abbrev pub Untouched : String → W → W → Type 0
  Untouched K w0 w = (p : Place) → Below K p → value w p ≡ value w0 p

  -- The key K has the driver description of a virtual adapter.
  abbrev pub IsVirtual : String → W → Type 0
  IsVirtual K w =
      (d : String) × (stored_text (value w (place hklm K "DriverDesc")) ≡ some d)
      × (is_virtual_or_vpn_adapter "" d ≡ true)

  -- Native Wi-Fi leaves what is below K alone.
  pub record WlanQuiet (K : String) (wlan : WlanApi W) : Type 0 where
    pub opens : (w : W) (p : Place) → Below K p → value (wlan.wlan_open_handle w).1 p ≡ value w p
    pub enumerates :
        (h : ℕ) (w : W) (p : Place)
        → Below K p
        → value (wlan.wlan_enum_interfaces h w).1 p ≡ value w p
    pub sets :
        (h g : ℕ) (b : Bool) (w : W) (p : Place)
        → Below K p
        → value (wlan.wlan_set_autoconf h g b w).1 p ≡ value w p
    pub frees : (w : W) (p : Place) → Below K p → value (wlan.wlan_free_memory w).1 p ≡ value w p
    pub closes :
        (h : ℕ) (w : W) (p : Place) → Below K p → value (wlan.wlan_close_handle h w).1 p ≡ value w p

  module _ (K : String) (w0 : W) (virtual : IsVirtual K w0) where
    abbrev pub Other : String → Type 0
    Other k = same_text k K ≡ false

    spares : (k n : String) (p : Place) → Other k → Below K p → alias (place hklm k n) p ≡ false
    unfolding alias
    spares k n p other below = ground (arith, same_text-join k K p.key)

    pub set_string-Untouched :
        (k n v : String) → Other k → Keeps (Untouched K w0) (store.set_string hklm k n v)
    set_string-Untouched k n v other = record {
      at = λ w h p below.
          ground
            (arith, store.set_string-values hklm k n v w p, spares k n p other below, h p below);
    }

    pub set_dword-Untouched :
        (k n : String) (v : ℕ) → Other k → Keeps (Untouched K w0) (store.set_dword hklm k n v)
    set_dword-Untouched k n v other = record {
      at = λ w h p below.
          ground
            (arith, store.set_dword-values hklm k n v w p, spares k n p other below, h p below);
    }

    pub get_string-Untouched : (k n : String) → Keeps (Untouched K w0) (store.get_string hklm k n)
    get_string-Untouched k n = record {
      at = λ w h p below. store.get_string-values hklm k n w p ∙ h p below;
    }

    pub get_dword-Untouched : (k n : String) → Keeps (Untouched K w0) (store.get_dword hklm k n)
    get_dword-Untouched k n = record {
      at = λ w h p below. store.get_dword-values hklm k n w p ∙ h p below;
    }

    pub enumerate-Untouched :
        (k : String) → Keeps (Untouched K w0) (store.enumerate_sub_keys hklm k)
    enumerate-Untouched k = record {
      at = λ w h p below. store.enumerate_sub_keys-values hklm k w p ∙ h p below;
    }

    pub admin-Untouched : Keeps (Untouched K w0) store.is_running_as_admin
    admin-Untouched = record {
      at = λ w h p below. store.is_running_as_admin-values w p ∙ h p below;
    }

    -- A key whose description was read and is not virtual is another key than K.
    read-Other :
        (k desc : String) (w : W)
        → Untouched K w0 w
        → (store.get_string hklm k "DriverDesc" w).0 ≡ some desc
        → is_virtual_or_vpn_adapter "" desc ≡ false
        → Other k
    unfolding alias
    read-Other k desc w h read real =
        let (d, stored, bad) = virtual in
        ground (
          arith,
          store.get_string_sound hklm k "DriverDesc" desc w read,
          store.value_alias w (place hklm k "DriverDesc") (place hklm K "DriverDesc"),
          h (place hklm K "DriverDesc"),
          same_text_refl K,
          same_text_refl "DriverDesc",
        )

    class_keys-Untouched : (list : List String) → Keeps (Untouched K w0) (class_keys store list)
    unfolding class_keys
    class_keys-Untouched [] = search keeps_rules
    class_keys-Untouched (sk ∷ list) = record {
      at = λ w h.
          let read = get_string-Untouched (class_key sk) "DriverDesc" in
          (class_keys-Untouched list).at (store.get_string hklm (class_key sk) "DriverDesc" w).1
            (read.at w h);
    }

    -- GetAdapterClassKeys lists no key that is K.
    class_keys-Other :
        (list : List String) (w : W) → Untouched K w0 w → All Other (class_keys store list w).0
    unfolding class_keys
    class_keys-Other [] w h = tt
    class_keys-Other (sk ∷ list) w h =
        let k = class_key sk in
        let w1 = (store.get_string hklm k "DriverDesc" w).1 in
        let more = class_keys-Other list w1 ((get_string-Untouched k "DriverDesc").at w h) in
        elim (Option-cases (store.get_string hklm k "DriverDesc" w).0) [
          | inl missing ↦ rw missing more
          | inr (desc, read) ↦ elim (Bool-cases (is_virtual_or_vpn_adapter "" desc)) [
            | inl bad ↦ rw (read, bad) more
            | inr real ↦ rw (read, real) (read-Other k desc w h read real, more)
          ]
        ]

    get_adapter_class_keys-Untouched : Keeps (Untouched K w0) (get_adapter_class_keys store)
    unfolding get_adapter_class_keys
    get_adapter_class_keys-Untouched =
        search (keeps_rules, enumerate-Untouched, class_keys-Untouched)

    get_adapter_class_keys-Other :
        (w : W) → Untouched K w0 w → All Other (get_adapter_class_keys store w).0
    unfolding get_adapter_class_keys
    get_adapter_class_keys-Other w h =
        let (list, w1) = store.enumerate_sub_keys hklm root_class w in
        class_keys-Other list w1 ((enumerate-Untouched root_class).at w h)

    -- One loop over the valid keys, and the result that follows it.
    pub counted :
        {A : Type 0} (body : String → State W Bool) (f : ℕ → State W A)
        → ((k : String) → Other k → Keeps (Untouched K w0) (body k))
        → ((n : ℕ) → Keeps (Untouched K w0) (f n))
        → Keeps
            (Untouched K w0)
            (do keys ← get_adapter_class_keys store; count ← count_each body keys; f count)
    counted body f kb kf =
        bind-Keeps_of (All Other) get_adapter_class_keys-Untouched get_adapter_class_keys-Other
          λ keys others. bind-Keeps (count_each-Keeps Other kb keys others) kf

pub ruleset shield_rules = (
  keeps_rules, set_string-Untouched, set_dword-Untouched, get_string-Untouched, get_dword-Untouched,
  enumerate-Untouched, admin-Untouched,
)
