-- ===== src/Adapter/Shield/Wlan.antt =====
-- src/adapter_optimizer.cpp: the calls of Native Wi-Fi, and the run over all optimizations.
use disping.Common.{ℕ, String, refl, ◌∙◌, Bool, Option, none, some, List, [], ◌∷◌, All}
use disping.Common.State.{count_each}
use disping.Common.State.Keeps.{Keeps, pure-Keeps, count_each-Keeps, keeps_rules}
use disping.Windows.System.{WlanApi}
use disping.Store.{RegistryStore}
use disping.Adapter.Wifi.{
  set_interface, set_interfaces, switch_background_scan, set_wifi_background_scan,
  optimize_all_network_adapters,
}
use disping.Adapter.Shield.{Untouched, IsVirtual, WlanQuiet, shield_rules}
use disping.Adapter.Shield.Steps.{
  disable_interrupt_moderation-Untouched, disable_large_send_offload-Untouched,
  disable_energy_saving-Untouched, maximize_adapter_buffers-Untouched,
  disable_flow_control-Untouched, optimize_wifi_adapters-Untouched,
}

module _ {W : Type 0} (store : RegistryStore W) (K : String) (w0 : W)
    (virtual : IsVirtual store K w0) (wlan : WlanApi W) (quiet : WlanQuiet store K wlan) where
  open_handle-Untouched : Keeps (Untouched store K w0) wlan.wlan_open_handle
  open_handle-Untouched = record { at = λ w h p b. quiet.opens w p b ∙ h p b }

  enum_interfaces-Untouched : (c : ℕ) → Keeps (Untouched store K w0) (wlan.wlan_enum_interfaces c)
  enum_interfaces-Untouched c = record { at = λ w h p b. quiet.enumerates c w p b ∙ h p b }

  free_memory-Untouched : Keeps (Untouched store K w0) wlan.wlan_free_memory
  free_memory-Untouched = record { at = λ w h p b. quiet.frees w p b ∙ h p b }

  close_handle-Untouched : (c : ℕ) → Keeps (Untouched store K w0) (wlan.wlan_close_handle c)
  close_handle-Untouched c = record { at = λ w h p b. quiet.closes c w p b ∙ h p b }

  set_interface-Untouched :
      (c : ℕ) (enabled : Bool) (g : ℕ)
      → Unit {0}
      → Keeps (Untouched store K w0) (set_interface wlan c enabled g)
  unfolding set_interface
  set_interface-Untouched c enabled g _ = record {
    at = λ w h p b. quiet.sets c g enabled w p b ∙ h p b;
  }

  All-units : (list : List ℕ) → All (λ _. Unit {0}) list
  All-units [] = tt
  All-units (x ∷ list) = (tt, All-units list)

  each_interface-Untouched :
      (c : ℕ) (enabled : Bool) (guids : List ℕ)
      → Keeps (Untouched store K w0) (count_each (set_interface wlan c enabled) guids)
  each_interface-Untouched c enabled guids =
      count_each-Keeps (λ _. Unit {0}) (set_interface-Untouched c enabled) guids (All-units guids)

  set_interfaces-Untouched :
      (c : ℕ) (enabled : Bool) (o : Option (List ℕ))
      → Keeps (Untouched store K w0) (set_interfaces wlan c enabled o)
  unfolding set_interfaces
  set_interfaces-Untouched c enabled none = pure-Keeps 0
  set_interfaces-Untouched c enabled (some guids) =
      search (keeps_rules, each_interface-Untouched, free_memory-Untouched)

  ruleset wlan_rules = (
    shield_rules, open_handle-Untouched, enum_interfaces-Untouched, close_handle-Untouched,
    set_interfaces-Untouched,
  )

  switch_background_scan-Untouched :
      (enabled : Bool) → Keeps (Untouched store K w0) (switch_background_scan wlan enabled)
  unfolding switch_background_scan
  switch_background_scan-Untouched enabled = search wlan_rules depth 9

  set_wifi_background_scan-Untouched :
      (enabled : Bool) → Keeps (Untouched store K w0) (set_wifi_background_scan store wlan enabled)
  unfolding set_wifi_background_scan
  set_wifi_background_scan-Untouched enabled =
      search (shield_rules, switch_background_scan-Untouched)

  optimize_all-Untouched : Keeps (Untouched store K w0) (optimize_all_network_adapters store wlan)
  unfolding optimize_all_network_adapters
  optimize_all-Untouched =
      search
        (
          shield_rules, disable_interrupt_moderation-Untouched,
          disable_large_send_offload-Untouched, disable_energy_saving-Untouched,
          maximize_adapter_buffers-Untouched, disable_flow_control-Untouched,
          optimize_wifi_adapters-Untouched, set_wifi_background_scan-Untouched,
        )
        depth 12

module _ {W : Type 0} (store : RegistryStore W) where
  -- The run over all adapter optimizations leaves every value below the driver key of a
  -- virtual or VPN adapter as it was, if Native Wi-Fi leaves them alone.
  pub optimize_all_network_adapters-Untouched :
      (wlan : WlanApi W) (K : String) (w : W)
      → WlanQuiet store K wlan
      → IsVirtual store K w
      → Untouched store K w (optimize_all_network_adapters store wlan w).1
  optimize_all_network_adapters-Untouched wlan K w quiet virtual =
      (optimize_all-Untouched store K w virtual wlan quiet).at w (λ p below. refl)
