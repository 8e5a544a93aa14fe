-- ===== src/Vpn/Scan.antt =====
-- ScanVpnStatus of src/vpn_guard.cpp beside the quick test IsVpnOrDpiBypassActive.
use disping.Common.{
  ℕ, String, ◌≡◌, sym, ◌∙◌, Bool, false, ◌||◌, ltb, refl, Bool-cases, inl, inr, some, List, [], ◌∷◌,
  arith, if◌then◌else◌,
}
use disping.Windows.System.{all_interfaces, Process, SocketAddress, AdapterAddresses, SystemApi}
use disping.Vpn.{
  any_fake_ip, any_fake_ip_adapter, any_protected, VpnDetectionReport, empty_report, report_process,
  report_processes, report_dns_server, report_dns, report_tun, report_adapter, report_adapters,
  scanned_processes, adapters, has_fake_ip_or_vpn_dns, is_vpn_or_dpi_bypass_active, scan_vpn_status,
}

-- The two findings that make the tool keep its hands off DNS.
abbrev pub is_alarming : VpnDetectionReport → Bool
is_alarming report = report.vpn_process_detected || report.fake_ip_dns_detected

report_processes-flags :
    (report : VpnDetectionReport) (list : List Process)
    → is_alarming (report_processes report list) ≡ (is_alarming report || any_protected list)
unfolding report_processes any_protected
report_processes-flags report [] = ground arith
report_processes-flags report (p ∷ rest) =
    ground (arith, report_processes-flags (report_process report p) rest)

report_dns-flags :
    (fname : String) (report : VpnDetectionReport) (list : List SocketAddress)
    → is_alarming (report_dns fname report list) ≡ (is_alarming report || any_fake_ip list)
unfolding report_dns any_fake_ip
report_dns-flags fname report [] = ground arith
report_dns-flags fname report (a ∷ rest) =
    ground (arith, report_dns-flags fname (report_dns_server fname report a) rest)

report_tun-flags :
    (report : VpnDetectionReport) (a : AdapterAddresses)
    → is_alarming (report_tun report a) ≡ is_alarming report
unfolding report_tun
report_tun-flags report a = ground arith

report_adapters-flags :
    (report : VpnDetectionReport) (list : List AdapterAddresses)
    → is_alarming (report_adapters report list) ≡ (is_alarming report || any_fake_ip_adapter list)
unfolding report_adapters report_adapter any_fake_ip_adapter
report_adapters-flags report [] = ground arith
report_adapters-flags report (a ∷ rest) = ground (
  arith,
  report_adapters-flags (report_adapter report a) rest,
  report_dns-flags a.friendly_name (report_tun report a) a.dns_servers,
  report_tun-flags report a,
)

-- GetAdaptersAddresses where the adapters take `needed` bytes: ERROR_BUFFER_OVERFLOW and that number for a smaller buffer, the
-- adapters for one that is large enough.
abbrev pub answer_for : ℕ → List AdapterAddresses → ℕ → ℕ × ℕ × List AdapterAddresses
answer_for needed nics n = if ltb n needed then (111, needed, []) else (0, needed, nics)

-- The processes and the adapters stay the same while the program asks.
module _ {W : Type 0} (api : SystemApi W) (list : List Process) (needed : ℕ)
    (nics : List AdapterAddresses) (same_processes : (w : W) → (api.snapshot w).0 ≡ some list)
    (same_adapters : (n : ℕ) (w : W)
      → (api.get_adapters_addresses all_interfaces n w).0 ≡ answer_for needed nics n) where
  adapters-steady : (w : W) → (adapters api all_interfaces w).0 ≡ some nics
  unfolding adapters
  adapters-steady w =
      let (a, w1) = api.get_adapters_addresses all_interfaces 15000 w in
      elim (Bool-cases (ltb 15000 needed)) [
        | inl small ↦
            let e : (api.get_adapters_addresses all_interfaces 15000 w).0 ≡ (111, needed, []) =
              same_adapters 15000 w ∙ rw small refl in
            let enough : ltb needed needed ≡ false = ground arith in
            let e' : (api.get_adapters_addresses all_interfaces needed w1).0 ≡ (0, needed, nics) =
              same_adapters needed w1 ∙ rw enough refl in
            rw (e, e') refl
        | inr large ↦
            let e : (api.get_adapters_addresses all_interfaces 15000 w).0 ≡ (0, needed, nics) =
              same_adapters 15000 w ∙ rw large refl in
            rw e refl
      ]

  scan-flags :
      (w : W)
      → is_alarming (scan_vpn_status api w).0 ≡ (any_protected list || any_fake_ip_adapter nics)
  unfolding scan_vpn_status scanned_processes
  scan-flags w =
      let (o, w1) = api.snapshot w in
      ground (
        arith,
        same_processes w,
        adapters-steady w1,
        report_processes-flags empty_report list,
        report_adapters-flags (report_processes empty_report list) nics,
      )

  quick-flags :
      (w : W)
      → (is_vpn_or_dpi_bypass_active api w).0 ≡ (any_protected list || any_fake_ip_adapter nics)
  unfolding is_vpn_or_dpi_bypass_active has_fake_ip_or_vpn_dns
  quick-flags w =
      let (o, w1) = api.snapshot w in ground (arith, same_processes w, adapters-steady w1)

  -- If the snapshot of the processes is valid, processes and adapters stay the same, and
  -- GetAdaptersAddresses answers a buffer smaller than the adapters need with
  -- ERROR_BUFFER_OVERFLOW and the bytes needed, the quick test says yes exactly if the full
  -- scan finds a protected process or a fake DNS server; a TUN adapter alone does not count.
  pub is_vpn_or_dpi_bypass_active-scan :
      (w : W) → (is_vpn_or_dpi_bypass_active api w).0 ≡ is_alarming (scan_vpn_status api w).0
  is_vpn_or_dpi_bypass_active-scan w = quick-flags w ∙ sym (scan-flags w)
