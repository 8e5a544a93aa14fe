-- ===== src/Network.antt =====
-- src/network_optimizer.cpp: the TCP/IP tweaks in the registry and through netsh.
pub mod Applied
use Prim.Native.String.{◌++◌}
use disping.Common.{
  ℕ, String, Bool, true, false, not, ◌&&◌, ◌||◌, Option, none, some, List, [], ◌∷◌, OperationResult,
  fresh_result, result, ltb, ◌==◌, if◌then◌else◌,
}
use disping.Common.State.{State, ◌>>=◌, ◌>>◌, pure, count_each}
use disping.Common.Text.{codes, contains, to_string}
use disping.Windows.Registry.{hklm}
use disping.Windows.System.{SystemApi}
use disping.Store.{RegistryStore}

abbrev pub interfaces_key : String
interfaces_key = "SYSTEM\\CurrentControlSet\\Services\\Tcpip\\Parameters\\Interfaces"

abbrev pub profile_key : String
profile_key = "SOFTWARE\\Microsoft\\Windows NT\\CurrentVersion\\Multimedia\\SystemProfile"

abbrev pub tcp_key : String
tcp_key = "SYSTEM\\CurrentControlSet\\Services\\Tcpip\\Parameters"

abbrev pub netsh_commands : List String
netsh_commands =
    "netsh int tcp set global autotuninglevel=normal"
    ∷ "netsh int tcp set global ecncapability=disabled"
    ∷ "netsh int tcp set global timestamps=disabled" ∷ "netsh int tcp set global rss=enabled"
    ∷ "netsh int tcp set global rsc=disabled" ∷ "netsh int tcp set heuristics disabled"
    ∷ "netsh int ip set global taskoffload=enabled" ∷ []

-- `text.find(needle) != npos` on two texts.
abbrev holds : String → String → Bool
holds needle text = contains (codes needle) (codes text)

module _ {W : Type 0} (store : RegistryStore W) where
  unfoldable pub get_interface_guids : State W (List String)
  get_interface_guids = store.enumerate_sub_keys hklm interfaces_key

  unfoldable pub tune_interface : String → State W Bool
  tune_interface guid = do
    let sub_key = interfaces_key ++ "\\" ++ guid
    b1 ← store.set_dword hklm sub_key "TcpAckFrequency" 1
    b2 ← store.set_dword hklm sub_key "TCPNoDelay" 1
    b3 ← store.set_dword hklm sub_key "TcpDelAckTicks" 0
    pure (b1 && b2 && b3)

  unfoldable pub tune_interfaces : List String → State W OperationResult
  tune_interfaces [] = pure (result false "No network interface GUIDs found in registry.")
  tune_interfaces (guid ∷ rest) = do
    success_count ← count_each tune_interface (guid ∷ rest)
    pure (
        result (ltb 0 success_count) (
          "Optimized TCPNoDelay & TcpAckFrequency across "
          ++ to_string success_count
          ++ " interfaces."))

  unfoldable pub optimize_tcp_no_delay_and_ack_frequency : State W OperationResult
  optimize_tcp_no_delay_and_ack_frequency = do
    admin ← store.is_running_as_admin
    if not admin
        then pure
            (result false "Administrator privileges required to modify TCP/IP registry settings.")
        else do guids ← get_interface_guids; tune_interfaces guids

  -- The three writes to the SystemProfile key.
  unfoldable pub write_profile : State W Bool
  write_profile = do
    b1 ← store.set_dword hklm profile_key "NetworkThrottlingIndex" 0xFFFF_FFFF
    b2 ← store.set_dword hklm profile_key "SystemResponsiveness" 0
    b3 ← store.set_dword hklm profile_key "NoLazyMode" 1
    pure (b1 && b2)

  unfoldable pub optimize_network_throttling_and_responsiveness : State W OperationResult
  optimize_network_throttling_and_responsiveness = do
    admin ← store.is_running_as_admin
    if not admin then pure (result false "Administrator privileges required.") else do
      success ← write_profile
      pure (
          result success (
            if success
            then "Network Throttling disabled and System Responsiveness set to 100% gaming priority."
            else "Failed to configure SystemProfile registry values."))

  unfoldable pub optimize_tcp_parameters : State W OperationResult
  optimize_tcp_parameters = do
    admin ← store.is_running_as_admin
    if not admin then pure (result false "Administrator privileges required.") else do
      store.set_dword hklm tcp_key "DefaultTTL" 64
      store.set_dword hklm tcp_key "MaxUserPort" 65534
      store.set_dword hklm tcp_key "TcpTimedWaitDelay" 30
      store.set_dword hklm tcp_key "StrictTimeWaitSeqCheck" 1
      store.set_dword hklm tcp_key "DisableTaskOffload" 0
      store.set_dword hklm tcp_key "EnableWsd" 0
      pure (
          result true
            "Configured optimal TCP/IP global parameters (TTL, MaxUserPort, TimedWaitDelay).")

  unfoldable pub are_tweaks_applied : State W Bool
  are_tweaks_applied = do
    throttle ← store.get_dword hklm profile_key "NetworkThrottlingIndex"
    pure (elim throttle [ none ↦ false | some d ↦ d == 0xFFFF_FFFF ])

module _ {W : Type 0} (api : SystemApi W) where
  -- The commands one after the other, and the log of what they print.
  unfoldable pub run_commands : List String → State W String
  run_commands [] = pure ""
  run_commands (cmd ∷ rest) = do
    out ← api.run_command cmd
    log ← run_commands rest
    pure ("[" ++ cmd ++ "] -> " ++ out ++ log)

  -- BBR, or CUBIC or CTCP where Windows does not know it.
  unfoldable pub choose_congestion_provider : State W Unit
  choose_congestion_provider = do
    bbr_out ←
        api.run_command "netsh int tcp set supplemental template=internet congestionprovider=bbr"
    if holds "The parameter is incorrect" bbr_out || holds "Error" bbr_out
        then (do
          cubic_out ←
              api.run_command
                "netsh int tcp set supplemental template=internet congestionprovider=cubic"
          if holds "The parameter is incorrect" cubic_out
              then (do
                api.run_command
                    "netsh int tcp set supplemental template=internet congestionprovider=ctcp"
                pure tt)
              else pure tt)
        else pure tt

  unfoldable pub optimize_tcp_global_netsh : State W OperationResult
  optimize_tcp_global_netsh = do
    output_log ← run_commands netsh_commands
    choose_congestion_provider
    pure (record fresh_result {
      success = true;
      message =
          "Executed Netsh TCP/IP stack optimization rules (RSS, autotuning, RSC disabled, timestamps disabled).";
      details = output_log;
    })

  unfoldable pub apply_all_network_tweaks : RegistryStore W → State W OperationResult
  apply_all_network_tweaks store = do
    r1 ← optimize_tcp_no_delay_and_ack_frequency store
    r2 ← optimize_network_throttling_and_responsiveness store
    r3 ← optimize_tcp_parameters store
    r4 ← optimize_tcp_global_netsh
    let success = r1.success && r2.success && r3.success
    pure (record fresh_result {
      success = success;
      message =
          if success
          then "All Network TCP/IP tweaks successfully applied!"
          else "Some network tweaks failed (ensure running as Administrator).";
      details = r1.message ++ "\n" ++ r2.message ++ "\n" ++ r3.message ++ "\n" ++ r4.message;
    })
