-- ===== src/Mtu.antt =====
-- src/mtu_optimizer.cpp: the search for the largest packet that passes unfragmented, and its use.
pub mod Search
pub mod Shield
use Prim.Native.String.{◌++◌}
use disping.Common.{
  ℕ, zero, suc, ◌+◌, ◌-◌, ◌/◌, String, Bool, true, false, not, Option, none, some, List, [], ◌∷◌,
  OperationResult, fresh_result, result, ltb, leb, ◌==◌, if◌then◌else◌,
}
use disping.Common.State.{State, ◌>>=◌, ◌>>◌, pure, count_each}
use disping.Common.Text.{to_string}
use disping.Windows.Icmp.{IcmpApi}
use disping.Windows.System.{SystemApi}
use disping.Vpn.{is_virtual_or_vpn_adapter}
use disping.Adapter.Active.{NetworkAdapterInfo, get_active_adapters}

pub record MtuResult : Type 0 where
  pub optimal_mtu : ℕ
  pub optimal_mss : ℕ
  pub found : Bool
  pub notes : String

module _ {W : Type 0} (icmp : IcmpApi W) where
  -- The address of the host, as `inet_addr` or `gethostbyname` gives it.
  pub resolve : String → State W (Option ℕ)
  resolve target_host =
      let ipaddr = icmp.inet_addr target_host in
      if ipaddr == 0xFFFF_FFFF then icmp.gethostbyname target_host else pure (some ipaddr)

  pub send_probe : ℕ → ℕ → Option ℕ → State W Bool
  send_probe handle payload_size none = do icmp.icmp_close_handle handle; pure false
  send_probe handle payload_size (some ipaddr) = do
    (replies, status) ← icmp.icmp_send_echo handle ipaddr payload_size
    icmp.icmp_close_handle handle
    pure (if replies == 0 then false else status == 0)

  -- `none` stands for INVALID_HANDLE_VALUE.
  pub probe_file : String → ℕ → Option ℕ → State W Bool
  probe_file target_host payload_size none = pure false
  probe_file target_host payload_size (some handle) = do
    address ← resolve target_host
    send_probe handle payload_size address

  unfoldable pub probe_packet_size : String → ℕ → State W Bool
  probe_packet_size target_host payload_size = do
    file ← icmp.icmp_create_file
    probe_file target_host payload_size file

-- The search over a probe, which ProbePacketSize is for a fixed host.
module _ {W : Type 0} (probe : ℕ → State W Bool) where
  -- `while (low <= high)`, on fuel; `none` stands for the optimalPayload -1.
  unfoldable pub search_payload : ℕ → ℕ → ℕ → Option ℕ → State W (Option ℕ)
  search_payload zero low high optimal_payload w = (optimal_payload, w)
  search_payload (suc fuel) low high optimal_payload w = elim (leb low high) [
    | true ↦
        let mid = low + (high - low) / 2 in
        let (passes, w') = probe mid w in
        elim passes [
          | true ↦ search_payload fuel (mid + 1) high (some mid) w'
          | false ↦ search_payload fuel low (mid - 1) optimal_payload w'
        ]
    | false ↦ (optimal_payload, w)
  ]

  abbrev pub standard : Bool → String → MtuResult
  standard found notes = record {
    optimal_mtu = 1500;
    optimal_mss = 1460;
    found = found;
    notes = notes;
  }

  abbrev pub converged : Option ℕ → MtuResult
  converged none = standard false "Could not converge; using standard 1500 MTU."
  converged (some payload) = record {
    optimal_mtu = payload + 28;
    optimal_mss = payload + 28 - 40;
    found = true;
    notes = "Optimal MTU discovered via DF Binary Search: " ++ to_string (payload + 28);
  }

  unfoldable pub discover_optimal_mtu : State W MtuResult
  discover_optimal_mtu = do
    reachable ← probe 1200
    if not reachable
        then pure (standard false "Target host did not reply to ICMP ping or path is unreachable.")
        else do
          full ← probe 1472
          if full
              then pure (standard true "Standard 1500 byte MTU confirmed with zero fragmentation.")
              else do
                optimal_payload ← search_payload 273 1200 1472 none
                pure (converged optimal_payload)

module _ {W : Type 0} (api : SystemApi W) where
  abbrev pub mtu_command : String → ℕ → String
  mtu_command interface_name mtu =
      "cmd.exe /c \"netsh interface ipv4 set subinterface \\\""
      ++ interface_name
      ++ "\\\" mtu="
      ++ to_string mtu
      ++ " store=persistent\" > nul 2>&1"

  unfoldable pub apply_mtu_to_interface : String → ℕ → State W OperationResult
  apply_mtu_to_interface interface_name mtu =
      if is_virtual_or_vpn_adapter interface_name ""
      then pure (
          result false
            ("[VPN SHIELD] Skipped MTU change on virtual/TUN adapter: " ++ interface_name))
      else do
        ret ← api.system (mtu_command interface_name mtu)
        pure (
            if ret == 0
            then result true
                ("Set MTU=" ++ to_string mtu ++ " on interface [" ++ interface_name ++ "].")
            else result false "Failed to set MTU via netsh (check admin privileges).")

  -- One step of the loop over the adapters.
  unfoldable pub apply_if_physical : ℕ → NetworkAdapterInfo → State W Bool
  apply_if_physical mtu nic =
      if nic.is_physical
      then (do r ← apply_mtu_to_interface nic.name mtu; pure r.success)
      else pure false

  -- What AutoDetectAndApplyMtu does with the MTU and the adapters that it has found.
  unfoldable pub apply_mtu_to_adapters :
      MtuResult → List NetworkAdapterInfo → State W OperationResult
  apply_mtu_to_adapters probe [] = pure (result false "No active network adapters found.")
  apply_mtu_to_adapters probe (nic ∷ rest) = do
    applied ← count_each (apply_if_physical probe.optimal_mtu) (nic ∷ rest)
    pure (record fresh_result {
      success = ltb 0 applied;
      message =
          "Configured MTU="
          ++ to_string probe.optimal_mtu
          ++ " (MSS="
          ++ to_string probe.optimal_mss
          ++ ") on "
          ++ to_string applied
          ++ " interface(s).";
      details = probe.notes;
    })

  unfoldable pub auto_detect_and_apply_mtu : IcmpApi W → String → State W OperationResult
  auto_detect_and_apply_mtu icmp target_host = do
    probe ← discover_optimal_mtu (probe_packet_size icmp target_host)
    adapters ← get_active_adapters api
    apply_mtu_to_adapters probe adapters
