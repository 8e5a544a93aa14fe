-- ===== src/Adapter/Wifi.antt =====
-- src/adapter_optimizer.cpp: the Wi-Fi adapters, and the run over all adapter optimizations.
use Prim.Native.String.{◌++◌}
use disping.Common.{
  ℕ, String, Bool, true, false, not, ◌||◌, Option, none, some, List, OperationResult, fresh_result,
  result, ltb, ◌==◌, if◌then◌else◌,
}
use disping.Common.State.{State, ◌>>=◌, ◌>>◌, pure, count_each}
use disping.Common.Text.{codes, lower, contains, to_string}
use disping.Windows.Registry.{hklm}
use disping.Windows.System.{WlanApi}
use disping.Store.{RegistryStore}
use disping.Adapter.{
  get_adapter_class_keys, disable_interrupt_moderation, disable_large_send_offload,
  disable_energy_saving, maximize_adapter_buffers, disable_flow_control,
}

-- `lowerDesc.find(...)` for the five words of a wireless description.
is_wireless_text : List ℕ → Bool
unfolding contains
is_wireless_text text =
    contains (codes "wireless") text
    || contains (codes "wi-fi") text
    || contains (codes "wifi") text
    || contains (codes "802.11") text
    || contains (codes "wlan") text

abbrev pub is_wireless_desc : Option String → Bool
unfolding is_wireless_text lower
is_wireless_desc none = false
is_wireless_desc (some desc) = is_wireless_text (lower (codes desc))

abbrev pub holds_number : ℕ → Option ℕ → Bool
holds_number n none = false
holds_number n (some m) = m == n

module _ {W : Type 0} (wlan : WlanApi W) where
  unfoldable pub set_interface : ℕ → Bool → ℕ → State W Bool
  set_interface client enabled guid = do
    set_res ← wlan.wlan_set_autoconf client guid enabled
    pure (set_res == 0)

  -- `none` stands for a null list.
  unfoldable pub set_interfaces : ℕ → Bool → Option (List ℕ) → State W ℕ
  set_interfaces client enabled none = pure 0
  set_interfaces client enabled (some guids) = do
    count ← count_each (set_interface client enabled) guids
    wlan.wlan_free_memory
    pure count

  -- What Native Wi-Fi is asked once the program runs as administrator.
  unfoldable pub switch_background_scan : Bool → State W ℕ
  switch_background_scan enabled = do
    (status, client) ← wlan.wlan_open_handle
    if not (status == 0) then pure 0 else do
      (status', list) ← wlan.wlan_enum_interfaces client
      count ← (if status' == 0 then set_interfaces client enabled list else pure 0)
      wlan.wlan_close_handle client
      pure count

module _ {W : Type 0} (store : RegistryStore W) where
  unfoldable pub is_wifi_adapter : String → State W Bool
  unfolding is_wireless_text
  is_wifi_adapter class_key = do
    desc ← store.get_string hklm class_key "DriverDesc"
    if is_wireless_desc desc then pure true else do
      if_type ← store.get_dword hklm class_key "*IfType"
      if holds_number 71 if_type then pure true else do
        media_type ← store.get_dword hklm class_key "*MediaType"
        pure (holds_number 16 media_type)

  -- The writes to one wireless adapter.
  unfoldable pub wifi_writes : String → State W Bool
  wifi_writes key = do
    store.set_string hklm key "RegRoamLevel" "1"
    store.set_string hklm key "RegROAMSensitiveLevel" "0"
    store.set_string hklm key "RoamAggressiveness" "1"
    store.set_string hklm key "LpsEn" "0"
    store.set_string hklm key "IpsEn" "0"
    store.set_string hklm key "L0sSupport" "0"
    store.set_string hklm key "L1Support" "0"
    store.set_string hklm key "L1OffSupport" "0"
    store.set_string hklm key "ClkReqSupport" "0"
    store.set_string hklm key "PowerSaveMode" "0"
    store.set_string hklm key "uAPSDSupport" "0"
    store.set_string hklm key "MIMO_PS" "0"
    store.set_string hklm key "TxPacketBoost" "1"
    store.set_dword hklm key "*WdiRscIPv4" 0
    store.set_dword hklm key "*WdiRscIPv6" 0
    store.set_string hklm key "*PacketCoalescing" "0"
    store.set_string hklm key "ThroughputBoosterEnabled" "1"
    pure true

  unfoldable pub tune_if_wifi : String → State W Bool
  tune_if_wifi key = do wifi ← is_wifi_adapter key; if not wifi then pure false else wifi_writes key

  unfoldable pub optimize_wifi_adapters : State W OperationResult
  optimize_wifi_adapters = do
    admin ← store.is_running_as_admin
    if not admin
        then pure (result false "Administrator privileges required to optimize Wi-Fi adapters.")
        else do
          keys ← get_adapter_class_keys store
          count ← count_each tune_if_wifi keys
          pure (
              result (ltb 0 count) (
                if ltb 0 count
                then "Wi-Fi Adapter optimized: Roaming sensitivity disabled, PCIe sleep disabled, RSC disabled on "
                  ++ to_string count
                  ++ " wireless profile(s)."
                else "No active physical Wi-Fi adapters detected (Ethernet system)."))

  module _ (wlan : WlanApi W) where
    unfoldable pub set_wifi_background_scan : Bool → State W OperationResult
    set_wifi_background_scan enabled = do
      admin ← store.is_running_as_admin
      if not admin
          then pure (result false "Administrator privileges required to control Wi-Fi scan.")
          else do
            count ← switch_background_scan wlan enabled
            pure (
                result (ltb 0 count) (
                  if not enabled
                  then (if ltb 0 count
                      then "Wi-Fi Background Scan DISABLED via Native WLAN API ("
                        ++ to_string count
                        ++ " interface(s)). Zero ping spikes!"
                      else "No active Wi-Fi interfaces found for background scan suppression.")
                  else "Wi-Fi Background Scan re-enabled ("
                    ++ to_string count
                    ++ " interface(s))."))

    unfoldable pub optimize_all_network_adapters : State W OperationResult
    optimize_all_network_adapters = do
      r1 ← disable_interrupt_moderation store
      r2 ← disable_large_send_offload store
      r3 ← disable_energy_saving store
      r4 ← maximize_adapter_buffers store
      r5 ← disable_flow_control store
      r6 ← optimize_wifi_adapters
      r7 ← set_wifi_background_scan false
      let success = r1.success || r2.success || r3.success || r4.success || r5.success || r6.success
      pure (record fresh_result {
        success = success;
        message =
            if success
            then "Network Adapter Hardware properties tuned for minimum latency!"
            else "Failed to modify adapter properties (run as Administrator).";
        details =
            r1.message
            ++ "\n"
            ++ r2.message
            ++ "\n"
            ++ r3.message
            ++ "\n"
            ++ r4.message
            ++ "\n"
            ++ r5.message
            ++ (if r6.success then "\n" ++ r6.message else "")
            ++ (if r7.success then "\n" ++ r7.message else "");
      })
