-- ===== src/Adapter/Shield/Steps.antt =====
-- src/adapter_optimizer.cpp and the driver key of a virtual or VPN adapter: each optimization by itself.
use disping.Common.{String}
use disping.Common.State.Keeps.{Keeps}
use disping.Store.{RegistryStore}
use disping.Adapter.{
  moderation_off, disable_interrupt_moderation, offload_off, disable_large_send_offload,
  energy_saving_off, disable_energy_saving, buffers_up, maximize_adapter_buffers, flow_control_off,
  disable_flow_control,
}
use disping.Adapter.Wifi.{is_wifi_adapter, wifi_writes, tune_if_wifi, optimize_wifi_adapters}
use disping.Adapter.Shield.{Untouched, IsVirtual, Other, counted, shield_rules}

module _ {W : Type 0} (store : RegistryStore W) (K : String) (w0 : W)
    (virtual : IsVirtual store K w0) where
  pub moderation_off-Untouched :
      (k : String)
      → Other store K w0 virtual k
      → Keeps (Untouched store K w0) (moderation_off store k)
  unfolding moderation_off
  moderation_off-Untouched k other = search shield_rules

  pub disable_interrupt_moderation-Untouched :
      Keeps (Untouched store K w0) (disable_interrupt_moderation store)
  unfolding disable_interrupt_moderation
  disable_interrupt_moderation-Untouched =
      search (shield_rules, counted store K w0 virtual, moderation_off-Untouched)

  pub offload_off-Untouched :
      (k : String) → Other store K w0 virtual k → Keeps (Untouched store K w0) (offload_off store k)
  unfolding offload_off
  offload_off-Untouched k other = search shield_rules

  pub disable_large_send_offload-Untouched :
      Keeps (Untouched store K w0) (disable_large_send_offload store)
  unfolding disable_large_send_offload
  disable_large_send_offload-Untouched =
      search (shield_rules, counted store K w0 virtual, offload_off-Untouched)

  pub energy_saving_off-Untouched :
      (k : String)
      → Other store K w0 virtual k
      → Keeps (Untouched store K w0) (energy_saving_off store k)
  unfolding energy_saving_off
  energy_saving_off-Untouched k other = search shield_rules depth 9

  pub disable_energy_saving-Untouched : Keeps (Untouched store K w0) (disable_energy_saving store)
  unfolding disable_energy_saving
  disable_energy_saving-Untouched =
      search (shield_rules, counted store K w0 virtual, energy_saving_off-Untouched)

  pub buffers_up-Untouched :
      (k : String) → Other store K w0 virtual k → Keeps (Untouched store K w0) (buffers_up store k)
  unfolding buffers_up
  buffers_up-Untouched k other = search shield_rules

  pub maximize_adapter_buffers-Untouched :
      Keeps (Untouched store K w0) (maximize_adapter_buffers store)
  unfolding maximize_adapter_buffers
  maximize_adapter_buffers-Untouched =
      search (shield_rules, counted store K w0 virtual, buffers_up-Untouched)

  pub flow_control_off-Untouched :
      (k : String)
      → Other store K w0 virtual k
      → Keeps (Untouched store K w0) (flow_control_off store k)
  unfolding flow_control_off
  flow_control_off-Untouched k other = search shield_rules

  pub disable_flow_control-Untouched : Keeps (Untouched store K w0) (disable_flow_control store)
  unfolding disable_flow_control
  disable_flow_control-Untouched =
      search (shield_rules, counted store K w0 virtual, flow_control_off-Untouched)

  pub is_wifi_adapter-Untouched :
      (k : String) → Keeps (Untouched store K w0) (is_wifi_adapter store k)
  unfolding is_wifi_adapter
  is_wifi_adapter-Untouched k = search shield_rules depth 9

  pub wifi_writes-Untouched :
      (k : String) → Other store K w0 virtual k → Keeps (Untouched store K w0) (wifi_writes store k)
  unfolding wifi_writes
  wifi_writes-Untouched k other = search shield_rules depth 40

  pub tune_if_wifi-Untouched :
      (k : String)
      → Other store K w0 virtual k
      → Keeps (Untouched store K w0) (tune_if_wifi store k)
  unfolding tune_if_wifi
  tune_if_wifi-Untouched k other =
      search (shield_rules, is_wifi_adapter-Untouched, wifi_writes-Untouched)

  pub optimize_wifi_adapters-Untouched : Keeps (Untouched store K w0) (optimize_wifi_adapters store)
  unfolding optimize_wifi_adapters
  optimize_wifi_adapters-Untouched =
      search (shield_rules, counted store K w0 virtual, tune_if_wifi-Untouched)
