-- ===== src/Vpn.antt =====
-- src/vpn_guard.cpp: which processes, adapters and DNS servers belong to a VPN or a DPI bypass.
pub mod Report
pub mod Match
pub mod Scan
use Prim.Native.String.{◌++◌}
use mathlib.Core.List
use disping.Common.{
  ℕ, String, Bool, true, false, ◌&&◌, ◌||◌, Option, none, some, List, [], ◌∷◌, map, ◌==◌,
  if◌then◌else◌,
}
use disping.Common.State.{State, ◌>>=◌, pure}
use disping.Common.Text.{codes, lower, same, has_prefix, contains}
use disping.Windows.System.{
  AddressFlags, all_interfaces, Process, SocketAddress, AdapterAddresses, SystemApi,
}

pub protected_processes : List String
protected_processes =
    "winws.exe" ∷ "blockcheck.exe" ∷ "goodbyedpi.exe" ∷ "ciadpi.exe" ∷ "zapret.exe" ∷ "incy.exe"
    ∷ "incyd.exe" ∷ "happ.exe" ∷ "happd.exe" ∷ "hiddify.exe" ∷ "sing-box.exe" ∷ "xray.exe"
    ∷ "v2ray.exe" ∷ "clash.exe" ∷ "clash-meta.exe" ∷ "mihomo.exe" ∷ "nekoray.exe" ∷ "nekobox.exe"
    ∷ "wireguard.exe" ∷ "openvpn.exe" ∷ "openvpnserv.exe" ∷ "amneziavpn.exe" ∷ "amnezia-vpn.exe"
    ∷ "tun2socks.exe" ∷ "tailscale.exe" ∷ "tailscaled.exe" ∷ "zerotier-one_x64.exe" ∷ []

-- `for (const auto& p : list) if (lowerName == p) return true;`
pub is_one_of : List ℕ → List String → Bool
unfolding same
is_one_of name [] = false
is_one_of name (p ∷ list) = same name (codes p) || is_one_of name list

unfoldable pub is_process_protected : String → Bool
unfolding is_one_of protected_processes lower
is_process_protected process_name = is_one_of (lower (codes process_name)) protected_processes

pub keywords : List String
keywords =
    "wintun" ∷ "tunnel" ∷ "tap" ∷ "tun" ∷ "vpn" ∷ "wwan" ∷ "wireguard" ∷ "sing-box" ∷ "hiddify"
    ∷ "amnezia" ∷ "openvpn" ∷ "tailscale" ∷ "zerotier" ∷ "hyper-v" ∷ "virtual" ∷ "vmware" ∷ "vbox"
    ∷ "wan miniport" ∷ "loopback" ∷ "pseudo" ∷ []

-- `for (const auto& kw : keywords) if (text.find(kw) != npos) return true;`
pub has_keyword : List ℕ → List String → Bool
unfolding contains
has_keyword text [] = false
has_keyword text (kw ∷ rest) = contains (codes kw) text || has_keyword text rest

-- `adapterName + " " + description`, with its capitals lowered.
abbrev pub adapter_text : String → String → List ℕ
adapter_text adapter_name description = lower (codes (adapter_name ++ " " ++ description))

unfoldable pub is_virtual_or_vpn_adapter : String → String → Bool
unfolding has_keyword keywords lower
is_virtual_or_vpn_adapter adapter_name description =
    has_keyword (adapter_text adapter_name description) keywords

-- `dnsIp.rfind("198.18.", 0) == 0 || dnsIp == "127.0.0.1"`, on an AF_INET address.
unfoldable pub is_fake_ip : SocketAddress → Bool
unfolding has_prefix same
is_fake_ip address =
    address.is_inet
    && (has_prefix (codes "198.18.") (codes address.ip)
        || same (codes address.ip) (codes "127.0.0.1"))

any_fake_ip : List SocketAddress → Bool
unfolding is_fake_ip
any_fake_ip [] = false
any_fake_ip (a ∷ rest) = is_fake_ip a || any_fake_ip rest

unfoldable pub any_fake_ip_adapter : List AdapterAddresses → Bool
unfolding any_fake_ip
any_fake_ip_adapter [] = false
any_fake_ip_adapter (a ∷ rest) = any_fake_ip a.dns_servers || any_fake_ip_adapter rest

unfoldable pub any_protected : List Process → Bool
unfolding is_process_protected
any_protected [] = false
any_protected (p ∷ rest) = is_process_protected p.exe || any_protected rest

pub record VpnDetectionReport : Type 0 where
  pub vpn_process_detected : Bool
  pub tun_adapter_detected : Bool
  pub fake_ip_dns_detected : Bool
  pub detected_processes : List String
  pub detected_adapters : List String
  pub detected_dns_servers : List String

abbrev pub empty_report : VpnDetectionReport
empty_report = record {
  vpn_process_detected = false;
  tun_adapter_detected = false;
  fake_ip_dns_detected = false;
  detected_processes = [];
  detected_adapters = [];
  detected_dns_servers = [];
}

-- One step of the first loop of ScanVpnStatus.
report_process : VpnDetectionReport → Process → VpnDetectionReport
unfolding is_process_protected
report_process report p =
    if is_process_protected p.exe
    then record report {
      vpn_process_detected = true;
      detected_processes = List.◌++◌ report.detected_processes (p.exe ∷ []);
    }
    else report

pub report_processes : VpnDetectionReport → List Process → VpnDetectionReport
unfolding report_process
report_processes report [] = report
report_processes report (p ∷ rest) = report_processes (report_process report p) rest

-- One DNS server of an adapter.
report_dns_server : String → VpnDetectionReport → SocketAddress → VpnDetectionReport
unfolding is_fake_ip
report_dns_server fname report a =
    if is_fake_ip a
    then record report {
      fake_ip_dns_detected = true;
      detected_dns_servers = List.◌++◌ report.detected_dns_servers ((fname ++ " -> " ++ a.ip) ∷ []);
    }
    else report

report_dns : String → VpnDetectionReport → List SocketAddress → VpnDetectionReport
unfolding report_dns_server
report_dns fname report [] = report
report_dns fname report (a ∷ rest) = report_dns fname (report_dns_server fname report a) rest

-- A TUN adapter that is up.
report_tun : VpnDetectionReport → AdapterAddresses → VpnDetectionReport
unfolding is_virtual_or_vpn_adapter
report_tun report a =
    if a.is_up && is_virtual_or_vpn_adapter a.friendly_name a.description
    then record report {
      tun_adapter_detected = true;
      detected_adapters =
          List.◌++◌ report.detected_adapters
            ((a.friendly_name ++ " (" ++ a.description ++ ")") ∷ []);
    }
    else report

-- One step of the second loop of ScanVpnStatus.
report_adapter : VpnDetectionReport → AdapterAddresses → VpnDetectionReport
unfolding report_tun report_dns
report_adapter report a = report_dns a.friendly_name (report_tun report a) a.dns_servers

unfoldable pub report_adapters : VpnDetectionReport → List AdapterAddresses → VpnDetectionReport
unfolding report_adapter
report_adapters report [] = report
report_adapters report (a ∷ rest) = report_adapters (report_adapter report a) rest

-- The report after the first loop, which an invalid snapshot skips.
unfoldable pub scanned_processes : Option (List Process) → VpnDetectionReport
scanned_processes none = empty_report
scanned_processes (some list) = report_processes empty_report list

module _ {W : Type 0} (api : SystemApi W) where
  -- GetAdaptersAddresses with 15000 bytes, again with the size asked for on ERROR_BUFFER_OVERFLOW;
  -- `none` stands for a result other than NO_ERROR.
  unfoldable pub adapters : AddressFlags → State W (Option (List AdapterAddresses))
  adapters flags = do
    (status, size, list) ← api.get_adapters_addresses flags 15000
    if status == 111
        then (do
          (status', _, list') ← api.get_adapters_addresses flags size
          pure (if status' == 0 then some list' else none))
        else pure (if status == 0 then some list else none)

  unfoldable pub has_fake_ip_or_vpn_dns : State W Bool
  has_fake_ip_or_vpn_dns = do
    found ← adapters all_interfaces
    pure (elim found [ none ↦ false | some list ↦ any_fake_ip_adapter list ])

  unfoldable pub is_vpn_or_dpi_bypass_active : State W Bool
  is_vpn_or_dpi_bypass_active = do
    processes ← api.snapshot
    elim processes [
      | none ↦ pure false
      | some list ↦ if any_protected list then pure true else has_fake_ip_or_vpn_dns
    ]

  unfoldable pub scan_vpn_status : State W VpnDetectionReport
  scan_vpn_status = do
    processes ← api.snapshot
    found ← adapters all_interfaces
    let report = scanned_processes processes
    pure (elim found [ none ↦ report | some list ↦ report_adapters report list ])
