-- ===== src/Adapter.antt =====
-- src/adapter_optimizer.cpp: driver properties of the network adapters, in the registry.
pub mod Wifi
pub mod Active
pub mod Shield
use Prim.Native.String.{◌++◌}
use disping.Common.{
  ℕ, String, Bool, true, false, not, ◌&&◌, ◌||◌, Option, none, some, List, [], ◌∷◌, OperationResult,
  fresh_result, result, ltb, ◌==◌, if◌then◌else◌,
}
use disping.Common.State.{State, ◌>>=◌, ◌>>◌, pure, count_each}
use disping.Common.Text.{codes, lower, contains, to_string}
use disping.Windows.Registry.{hklm}
use disping.Windows.System.{WlanApi}
use disping.Store.{RegistryStore}
use disping.Vpn.{is_virtual_or_vpn_adapter}

abbrev pub root_class : String
root_class = "SYSTEM\\CurrentControlSet\\Control\\Class\\{4d36e972-e325-11ce-bfc1-08002be10318}"

-- `rootClass + "\\" + sk`.
abbrev pub class_key : String → String
class_key sk = root_class ++ "\\" ++ sk

module _ {W : Type 0} (store : RegistryStore W) where
  -- The loop of GetAdapterClassKeys.
  unfoldable pub class_keys : List String → State W (List String)
  class_keys [] = pure []
  class_keys (sk ∷ rest) = do
    let full_key = class_key sk
    driver_desc ← store.get_string hklm full_key "DriverDesc"
    valid ← class_keys rest
    pure (elim driver_desc [
      | none ↦ valid
      | some desc ↦ if is_virtual_or_vpn_adapter "" desc then valid else full_key ∷ valid
    ])

  unfoldable pub get_adapter_class_keys : State W (List String)
  get_adapter_class_keys = do subkeys ← store.enumerate_sub_keys hklm root_class; class_keys subkeys

  abbrev set_string : String → String → String → State W Bool
  set_string key name value = store.set_string hklm key name value

  pub moderation_off : String → State W Bool
  moderation_off key = do
    b1 ← set_string key "*InterruptModeration" "0"
    b2 ← set_string key "*InterruptModerationRate" "0"
    b3 ← set_string key "ITR" "0"
    pure (b1 || b2 || b3)

  pub disable_interrupt_moderation : State W OperationResult
  disable_interrupt_moderation = do
    admin ← store.is_running_as_admin
    if not admin
        then pure (result false "Administrator privileges required to optimize Network Adapters.")
        else do
          keys ← get_adapter_class_keys
          count ← count_each moderation_off keys
          pure (
              result (ltb 0 count) (
                "Disabled Interrupt Moderation (Instant CPU IRQ) on "
                ++ to_string count
                ++ " adapter profiles."))

  pub offload_off : String → State W Bool
  offload_off key = do
    b1 ← set_string key "*LsoV2IPv4" "0"
    b2 ← set_string key "*LsoV2IPv6" "0"
    b3 ← set_string key "*LSOv4IPv4" "0"
    pure (b1 || b2 || b3)

  pub disable_large_send_offload : State W OperationResult
  disable_large_send_offload = do
    keys ← get_adapter_class_keys
    count ← count_each offload_off keys
    pure (
        result (ltb 0 count)
          "Disabled Large Send Offload (LSOv2) to eliminate packet burst serialization latency.")

  pub energy_saving_off : String → State W Bool
  energy_saving_off key = do
    b1 ← set_string key "*EEE" "0"
    b2 ← set_string key "*EnergyEfficientEthernet" "0"
    b3 ← set_string key "GreenEthernet" "0"
    b4 ← set_string key "ReduceSpeedOnPowerDown" "0"
    b5 ← set_string key "AutoPowerSaveModeEnabled" "0"
    b6 ← set_string key "PnPCapabilities" "24"
    pure (b1 || b2 || b3 || b4 || b5 || b6)

  pub disable_energy_saving : State W OperationResult
  disable_energy_saving = do
    keys ← get_adapter_class_keys
    count ← count_each energy_saving_off keys
    pure (
        result (ltb 0 count)
          "Disabled Green Ethernet / PHY Power Saving to keep hardware links actively awake.")

  pub buffers_up : String → State W Bool
  buffers_up key = do
    b1 ← set_string key "*ReceiveBuffers" "2048"
    b2 ← set_string key "*TransmitBuffers" "2048"
    b3 ← set_string key "RxDescriptors" "2048"
    b4 ← set_string key "TxDescriptors" "2048"
    pure (b1 || b2 || b3 || b4)

  pub maximize_adapter_buffers : State W OperationResult
  maximize_adapter_buffers = do
    keys ← get_adapter_class_keys
    count ← count_each buffers_up keys
    pure (result (ltb 0 count) "Maximized Network Adapter Ring Buffers (2048 Descriptors).")

  pub flow_control_off : String → State W Bool
  flow_control_off key = set_string key "*FlowControl" "0"

  pub disable_flow_control : State W OperationResult
  disable_flow_control = do
    keys ← get_adapter_class_keys
    count ← count_each flow_control_off keys
    pure (result (ltb 0 count) "Disabled Flow Control (prevents ethernet pause frame lag spikes).")
