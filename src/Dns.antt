-- ===== src/Dns.antt =====
-- src/dns_optimizer.cpp: the query packet, the benchmark of the providers and the choice of the fastest.
pub mod Packet
pub mod Shield
use Prim.Native.String.{◌++◌}
use mathlib.Core.List
use disping.Common.{
  ℕ, zero, suc, ◌+◌, ◌%◌, String, Bool, true, false, not, ◌||◌, Option, none, some, List, [], ◌∷◌,
  length, OperationResult, result, ltb, ◌==◌, if◌then◌else◌,
}
use disping.Common.State.{State, ◌>>=◌, ◌>>◌, pure, count_each}
use disping.Common.Text.{codes}
use disping.Windows.Dns.{DnsApi, Latencies}
use disping.Windows.System.{SystemApi}
use disping.Vpn.{is_virtual_or_vpn_adapter, is_vpn_or_dpi_bypass_active, has_fake_ip_or_vpn_dns}
use disping.Adapter.Active.{NetworkAdapterInfo, get_active_adapters}

-- A code before the first of the parts.
abbrev pub push : ℕ → List (List ℕ) → List (List ℕ)
push c [] = (c ∷ []) ∷ []
push c (part ∷ parts) = (c ∷ part) ∷ parts

-- The parts between the dots, as the loop over `domain.find('.', start)` cuts them off.
unfoldable pub split_domain : List ℕ → List (List ℕ)
split_domain [] = [] ∷ []
split_domain (c ∷ rest) =
    let parts = split_domain rest in if c == b'.' then [] ∷ parts else push c parts

-- Each part behind its length on 8 bits, and the root label.
unfoldable pub encode_parts : List (List ℕ) → List ℕ
encode_parts [] = 0 ∷ []
encode_parts (part ∷ parts) = (length part % 256) ∷ List.◌++◌ part (encode_parts parts)

abbrev pub header : List ℕ
header = 0x12 ∷ 0x34 ∷ 1 ∷ 0 ∷ 0 ∷ 1 ∷ 0 ∷ 0 ∷ 0 ∷ 0 ∷ 0 ∷ 0 ∷ []

abbrev pub question_end : List ℕ
question_end = 0 ∷ 1 ∷ 0 ∷ 1 ∷ []

unfoldable pub query_packet : String → List ℕ
query_packet domain =
    List.◌++◌ header (List.◌++◌ (encode_parts (split_domain (codes domain))) question_end)

pub record DnsBenchmarkResult (D : Type 0) : Type 0 where
  pub name : String
  pub primary_ip : String
  pub secondary_ip : String
  pub avg_latency_ms : D
  pub reachable : Bool

pub record DnsEntry : Type 0 where
  pub name : String
  pub primary : String
  pub secondary : String

abbrev entry : String → String → String → DnsEntry
entry n p s = record { name = n; primary = p; secondary = s }

abbrev pub providers : List DnsEntry
providers =
    entry "Cloudflare Gaming" "1.1.1.1" "1.0.0.1"
    ∷ entry "Google Public DNS" "8.8.8.8" "8.8.4.4"
    ∷ entry "Quad9 Low-Latency" "9.9.9.9" "149.112.112.112"
    ∷ entry "OpenDNS Fast" "208.67.222.222" "208.67.220.220"
    ∷ entry "AdGuard Gaming" "94.140.14.14" "94.140.15.15"
    ∷ []

module _ {W D : Type 0} (dns : DnsApi W D) (lat : Latencies D) where
  -- What follows `sendto`, which was called at the time `t1`.
  unfoldable pub answer : ℕ → D → Bool → State W D
  answer socket t1 false = do dns.close_socket socket; pure lat.failed
  answer socket t1 true = do
    received ← dns.receive socket
    t2 ← dns.clock
    dns.close_socket socket
    pure (if received then lat.minus t2 t1 else lat.failed)

  -- The exchange on an open socket.
  unfoldable pub exchange : ℕ → String → State W D
  exchange socket domain = do
    t1 ← dns.clock
    sent ← dns.send socket (query_packet domain)
    answer socket t1 sent

  unfoldable pub measure_on : String → Option ℕ → State W D
  measure_on domain none = pure lat.failed
  measure_on domain (some socket) = exchange socket domain

  unfoldable pub measure_dns_latency : String → String → State W D
  measure_dns_latency dns_server_ip test_domain = do
    socket ← dns.open_socket dns_server_ip
    measure_on test_domain socket

  -- `sum` and `validCount` after the given number of rounds.
  unfoldable pub measure_rounds : ℕ → String → D → ℕ → State W (D × ℕ)
  measure_rounds zero ip sum valid_count = pure (sum, valid_count)
  measure_rounds (suc rounds) ip sum valid_count = do
    l ← measure_dns_latency ip "valve.net"
    dns.sleep 20
    measure_rounds rounds ip (if lat.is_valid l then lat.plus sum l else sum)
        (if lat.is_valid l then valid_count + 1 else valid_count)

  abbrev pub summary : DnsEntry → D × ℕ → DnsBenchmarkResult D
  summary prov (sum, valid_count) = record {
    name = prov.name;
    primary_ip = prov.primary;
    secondary_ip = prov.secondary;
    avg_latency_ms = if ltb 0 valid_count then lat.over sum valid_count else lat.unreachable;
    reachable = ltb 0 valid_count;
  }

  unfoldable pub benchmark_entries : ℕ → List DnsEntry → State W (List (DnsBenchmarkResult D))
  benchmark_entries iterations [] = pure []
  benchmark_entries iterations (prov ∷ rest) = do
    measured ← measure_rounds iterations prov.primary lat.zero_ms 0
    results ← benchmark_entries iterations rest
    pure (summary prov measured ∷ results)

  -- `sort` stands for std::sort by avgLatencyMs.
  module _ (sort : List (DnsBenchmarkResult D) → List (DnsBenchmarkResult D)) where
    unfoldable pub benchmark_dns_providers : ℕ → State W (List (DnsBenchmarkResult D))
    benchmark_dns_providers iterations = do
      results ← benchmark_entries iterations providers
      pure (sort results)

module _ {W : Type 0} (api : SystemApi W) where
  abbrev pub flush_command : String
  flush_command = "cmd.exe /c \"ipconfig /flushdns\" > nul 2>&1"

  unfoldable pub flush_dns_cache : State W OperationResult
  flush_dns_cache = do
    ret ← api.system flush_command
    pure (
        result (ret == 0) (
          if ret == 0 then "Flushed Windows DNS resolver cache." else "Failed to flush DNS cache."))

  abbrev pub set_command : String → String → String
  set_command interface_name primary =
      "cmd.exe /c \"netsh interface ipv4 set dnsservers name=\\\"" ++ interface_name
      ++ "\\\" static " ++ primary ++ " primary\" > nul 2>&1"

  abbrev pub add_command : String → String → String
  add_command interface_name secondary =
      "cmd.exe /c \"netsh interface ipv4 add dnsservers name=\\\"" ++ interface_name ++ "\\\" "
      ++ secondary ++ " index=2\" > nul 2>&1"

  -- The commands for an interface that is not virtual.
  unfoldable pub write_dns_servers : String → String → String → State W OperationResult
  write_dns_servers interface_name primary secondary = do
    ret1 ← api.system (set_command interface_name primary)
    api.system (add_command interface_name secondary)
    flush_dns_cache
    pure (
        result (ret1 == 0) (
          if ret1 == 0
          then "Configured DNS: Primary=" ++ primary ++ ", Secondary=" ++ secondary ++ " on ["
            ++ interface_name ++ "]."
          else "Failed to set DNS servers (ensure running as Administrator)."))

  unfoldable pub set_dns_servers : String → String → String → State W OperationResult
  set_dns_servers interface_name primary secondary =
      if is_virtual_or_vpn_adapter interface_name ""
      then pure (
          result false
            ("[VPN SHIELD] Skipped DNS change on virtual/TUN adapter: " ++ interface_name))
      else write_dns_servers interface_name primary secondary

  module _ {D : Type 0} (dns : DnsApi W D) (lat : Latencies D)
      (sort : List (DnsBenchmarkResult D) → List (DnsBenchmarkResult D)) where
    unfoldable pub set_if_physical : DnsBenchmarkResult D → NetworkAdapterInfo → State W Bool
    set_if_physical best nic =
        if nic.is_physical
        then (do r ← set_dns_servers nic.name best.primary_ip best.secondary_ip; pure r.success)
        else pure false

    unfoldable pub configure :
        DnsBenchmarkResult D → List NetworkAdapterInfo → State W OperationResult
    configure best [] = pure (result false "No active network adapters found to configure DNS.")
    configure best (nic ∷ rest) = do
      applied ← count_each (set_if_physical best) (nic ∷ rest)
      pure (
          result (ltb 0 applied) (
            "Fastest DNS selected: "
            ++ best.name
            ++ " ("
            ++ best.primary_ip
            ++ ") with avg latency "
            ++ lat.fixed best.avg_latency_ms
            ++ " ms!"))

    -- What follows the benchmark: the first result counts, if it is reachable.
    unfoldable pub configure_best : List (DnsBenchmarkResult D) → State W OperationResult
    configure_best [] = pure (result false "No reachable DNS providers found.")
    configure_best (best ∷ rest) =
        if not best.reachable
        then pure (result false "No reachable DNS providers found.")
        else do adapters ← get_active_adapters api; configure best adapters

    unfoldable pub select_fastest : State W OperationResult
    select_fastest = do results ← benchmark_dns_providers dns lat sort 3; configure_best results

    -- `IsVpnOrDpiBypassActive() || HasFakeIpOrVpnDns()`, the second only if the first says no.
    unfoldable pub is_shielded : State W Bool
    is_shielded = do
      active ← is_vpn_or_dpi_bypass_active api
      if active then pure true else has_fake_ip_or_vpn_dns api

    unfoldable pub auto_select_fastest_dns : State W OperationResult
    auto_select_fastest_dns = do
      shielded ← is_shielded
      if shielded
          then pure (
              result true
                "[VPN SHIELD ACTIVE] Detected active VPN / DPI bypass / Fake-IP DNS (Incy/Happ/Zapret/198.18.x.x). DNS modification SKIPPED to guarantee 100% VPN stability!")
          else select_fastest
