-- ===== src/Qos.antt =====
-- src/qos_optimizer.cpp: the QoS policies for games, in the registry.
pub mod Policies
use Prim.Native.String.{◌++◌}
use disping.Common.{
  ℕ, ◌+◌, String, Bool, true, false, not, ◌&&◌, Option, none, some, List, [], ◌∷◌, OperationResult,
  fresh_result, result, ltb, ◌==◌, if◌then◌else◌,
}
use disping.Common.State.{State, ◌>>=◌, ◌>>◌, pure, count_each}
use disping.Common.Text.{codes, has_prefix, to_string}
use disping.Windows.Registry.{hklm}
use disping.Windows.System.{SystemApi}
use disping.Store.{RegistryStore}

abbrev pub default_gaming_executables : List String
default_gaming_executables =
    "cs2.exe" ∷ "csgo.exe" ∷ "valorant.exe" ∷ "VALORANT-Win64-Shipping.exe" ∷ "dota2.exe"
    ∷ "r5apex.exe" ∷ "FortniteClient-Win64-Shipping.exe" ∷ "Overwatch.exe" ∷ "RustClient.exe"
    ∷ "EscapeFromTarkov.exe" ∷ "RainbowSix.exe" ∷ "Warzone.exe" ∷ "ModernWarfare.exe"
    ∷ "RocketLeague.exe" ∷ "LeagueClientUx.exe" ∷ "disping.exe" ∷ []

abbrev pub tcp_key : String
tcp_key = "SYSTEM\\CurrentControlSet\\Services\\Tcpip\\Parameters"

abbrev qos_key : String
qos_key = "SYSTEM\\CurrentControlSet\\Services\\Tcpip\\QoS"

abbrev pub qos_root : String
qos_root = "SOFTWARE\\Policies\\Microsoft\\Windows\\QoS"

abbrev pub policy_prefix : String
policy_prefix = "DisPing_QoS_"

abbrev pub policy_path : String → String
policy_path exe = qos_root ++ "\\" ++ (policy_prefix ++ exe)

module _ {W : Type 0} (store : RegistryStore W) where
  -- The two writes of EnableUserTOS.
  unfoldable pub write_tos : State W Bool
  write_tos = do
    b1 ← store.set_dword hklm tcp_key "DisableUserTOSSetting" 0
    b2 ← store.set_string hklm qos_key "Do not use NLA" "1"
    pure (b1 && b2)

  unfoldable pub enable_user_tos : State W OperationResult
  enable_user_tos = do
    admin ← store.is_running_as_admin
    if not admin
        then pure
            (result false "Administrator privileges required to enable DSCP/QoS packet marking.")
        else do
          success ← write_tos
          pure (
              result success (
                if success
                then "Enabled User TOS/DSCP marking in Windows network stack."
                else "Failed to configure TCP/IP TOS registry settings."))

  -- One step of the loop: a policy counts, whether or not its writes succeed.
  unfoldable pub write_policy : String → State W Bool
  write_policy exe = do
    let path = policy_path exe
    store.set_string hklm path "Version" "1.0"
    store.set_string hklm path "Application Name" exe
    store.set_string hklm path "Protocol" "*"
    store.set_string hklm path "Local Port" "*"
    store.set_string hklm path "Local IP" "*"
    store.set_string hklm path "Local IP Prefix Length" "*"
    store.set_string hklm path "Remote Port" "*"
    store.set_string hklm path "Remote IP" "*"
    store.set_string hklm path "Remote IP Prefix Length" "*"
    store.set_string hklm path "DSCP Value" "46"
    store.set_string hklm path "Throttle Rate" "-1"
    pure true

  -- The given executables, the default ones if there are none.
  abbrev pub chosen : List String → List String
  chosen [] = default_gaming_executables
  chosen (exe ∷ rest) = exe ∷ rest

  unfoldable pub setup_gaming_qos_policies : List String → State W OperationResult
  setup_gaming_qos_policies custom_game_executables = do
    res ← enable_user_tos
    if not res.success then pure res else do
      count ← count_each write_policy (chosen custom_game_executables)
      pure (record res {
        success = ltb 0 count;
        message =
            "Configured Policy-Based QoS DSCP 46 (Expedited Forwarding) for "
            ++ to_string count
            ++ " game titles.";
      })

  unfoldable pub is_qos_enabled : State W Bool
  is_qos_enabled = do
    val ← store.get_dword hklm tcp_key "DisableUserTOSSetting"
    pure (elim val [ none ↦ false | some d ↦ d == 0 ])

  module _ (api : SystemApi W) where
    -- One step of the loop; the status of RegDeleteKey is ignored.
    unfoldable pub remove_policy : String → State W Bool
    remove_policy sk =
        if has_prefix (codes policy_prefix) (codes sk)
        then (do api.reg_delete_key (qos_root ++ "\\" ++ sk); pure true)
        else pure false

    unfoldable pub remove_gaming_qos_policies : State W OperationResult
    remove_gaming_qos_policies = do
      subkeys ← store.enumerate_sub_keys hklm qos_root
      count ← count_each remove_policy subkeys
      pure (result true ("Removed " ++ to_string count ++ " DisPing QoS policies."))
