-- ===== src/Tests/Components.antt =====
-- The theorems about the registry, the VPN guard and the adapters at work on concrete inputs.
use disping.Common.Text.{codes, lower}
use disping.Common.{ℕ, ◌≡◌, refl, ◌↔◌, true, none, some, List, [], ◌∷◌, arith}
use disping.Windows.Registry.{place, alias, same_text, sz, hklm}
use disping.Windows.System.{Process, AdapterAddresses, SystemApi, WlanApi}
use disping.Registry.{
  set_dword, get_dword, set_string, get_string, delete_value, value_exists, key_exists,
  enumerate_sub_keys, is_running_as_admin,
}
use disping.Registry.Handles
use disping.Registry.Values
use disping.Store.{RegistryStore, registry_util}
use disping.Vpn.{
  is_virtual_or_vpn_adapter, is_process_protected, protected_processes, is_vpn_or_dpi_bypass_active,
  scan_vpn_status,
}
use disping.Vpn.Match
use disping.Vpn.Scan
use disping.Adapter.{class_key}
use disping.Adapter.Wifi.{optimize_all_network_adapters}
use disping.Adapter.Shield.{Untouched}
use disping.Adapter.Shield.Wlan
use disping.Tests.Machine.{Machine, machine, machine_laws, set_entry, delete_entry, lookup, erase}

-- Two adapter profiles, the first of a WireGuard tunnel.
abbrev pub two_adapters : Machine
two_adapters = record {
  entries =
      (place hklm (class_key "0001") "DriverDesc", sz "WireGuard Tunnel")
      ∷ (place hklm (class_key "0002") "DriverDesc", sz "Intel(R) Ethernet I225-V")
      ∷ [];
  names = "0001" ∷ "0002" ∷ [];
  slot = none;
}

abbrev pub memory_store : RegistryStore Machine
memory_store = registry_util machine_laws

-- Native Wi-Fi with one interface.
abbrev pub one_interface : WlanApi Machine
one_interface = record {
  wlan_open_handle = λ w. ((0, 7), w);
  wlan_enum_interfaces = λ h w. ((0, some (11 ∷ [])), w);
  wlan_set_autoconf = λ h g on w. (0, w);
  wlan_free_memory = λ w. (tt, w);
  wlan_close_handle = λ h w. (tt, w);
}

no_leaks_example :
    Handles.SameHandles machine_laws (set_dword machine hklm "Software" "Value" 5)
    × Handles.SameHandles machine_laws (get_dword machine hklm "Software" "Value")
    × Handles.SameHandles machine_laws (set_string machine hklm "Software" "Value" "text")
    × Handles.SameHandles machine_laws (get_string machine hklm "Software" "Value")
    × Handles.SameHandles machine_laws (delete_value machine hklm "Software" "Value")
    × Handles.SameHandles machine_laws (value_exists machine hklm "Software" "Value")
    × Handles.SameHandles machine_laws (key_exists machine hklm "Software")
    × Handles.SameHandles machine_laws (enumerate_sub_keys machine hklm "Software")
    × Handles.SameHandles machine_laws (is_running_as_admin machine)
no_leaks_example = Handles.no_leaks machine_laws hklm "Software" "Value" "text" 5

get_dword-set_dword_example :
    (get_dword machine hklm "Software" "Value"
      (set_dword machine hklm "Software" "Value" 5 two_adapters).1).0
    ≡ some 5
unfolding set_dword machine_laws set_entry
get_dword-set_dword_example =
    Values.get_dword-set_dword machine_laws hklm "Software" "Value" 5 two_adapters refl refl

enumerate_sub_keys-subkeys_example :
    (enumerate_sub_keys machine hklm "Software" two_adapters).0 ≡ "0001" ∷ "0002" ∷ []
unfolding machine_laws
enumerate_sub_keys-subkeys_example =
    Values.enumerate_sub_keys-subkeys machine_laws hklm "Software" two_adapters (omega arith) refl

delete_value-values_example :
    lookup
      (delete_value machine hklm (class_key "0001") "DriverDesc" two_adapters).1.entries
      (place hklm (class_key "0001") "DRIVERDESC")
    ≡ none
unfolding delete_value machine_laws delete_entry lookup erase alias
delete_value-values_example =
    Values.delete_value-values machine_laws hklm (class_key "0001") "DriverDesc" two_adapters
      (place hklm (class_key "0001") "DRIVERDESC")

is_virtual_or_vpn_adapter-iff_example :
    (is_virtual_or_vpn_adapter "Ethernet 2" "TAP-Windows Adapter V9" ≡ true)
    ↔ Match.Some
        (Match.Holds (lower (codes "Ethernet 2 TAP-Windows Adapter V9")))
        Match.virtual_words
is_virtual_or_vpn_adapter-iff_example =
    Match.is_virtual_or_vpn_adapter_iff "Ethernet 2" "TAP-Windows Adapter V9"

is_process_protected-iff_example :
    (is_process_protected "WinWS.exe" ≡ true)
    ↔ Match.Some (λ p. same_text "WinWS.exe" p ≡ true) protected_processes
is_process_protected-iff_example = Match.is_process_protected_iff "WinWS.exe"

abbrev office_nic : AdapterAddresses
office_nic = record {
  adapter_name = "{0}";
  friendly_name = "Ethernet";
  description = "Intel(R) Ethernet I225-V";
  is_up = true;
  if_type = 6;
  physical_address = 1 ∷ 2 ∷ 3 ∷ [];
  unicast = record { is_inet = true; ip = "192.168.1.7" } ∷ [];
  dns_servers = record { is_inet = true; ip = "198.18.0.2" } ∷ [];
  mtu = 1500;
  transmit_link_speed = 1000000000;
}

abbrev pub two_processes : List Process
two_processes = record { pid = 4; exe = "System" } ∷ record { pid = 900; exe = "chrome.exe" } ∷ []

-- A system in which nothing happens between two calls.
abbrev pub steady : SystemApi Machine
steady = record {
  snapshot = λ w. (some two_processes, w);
  get_adapters_addresses = λ flags n w. ((0, 0, office_nic ∷ []), w);
  system = λ command w. (0, w);
  run_command = λ command w. ("Ok.", w);
  reg_delete_key = λ key w. (0, w);
}

-- The adapters take some number of bytes.
abbrev crowded : ℕ → SystemApi Machine
crowded needed = record steady {
  get_adapters_addresses = λ flags n w. (Scan.answer_for needed (office_nic ∷ []) n, w);
}

is_vpn_or_dpi_bypass_active-scan_example :
    (is_vpn_or_dpi_bypass_active (crowded 40000) two_adapters).0
    ≡ Scan.is_alarming (scan_vpn_status (crowded 40000) two_adapters).0
is_vpn_or_dpi_bypass_active-scan_example =
    Scan.is_vpn_or_dpi_bypass_active-scan (crowded 40000) two_processes 40000 (office_nic ∷ [])
      (λ w. refl) (λ n w. refl) two_adapters

optimize_all_network_adapters-Untouched_example :
    Untouched memory_store
      (class_key "0001")
      two_adapters
      (optimize_all_network_adapters memory_store one_interface two_adapters).1
unfolding machine_laws is_virtual_or_vpn_adapter lookup alias
optimize_all_network_adapters-Untouched_example =
    Wlan.optimize_all_network_adapters-Untouched memory_store one_interface (class_key "0001")
      two_adapters
      record {
        opens = λ w p b. refl;
        enumerates = λ h w p b. refl;
        sets = λ h g on w p b. refl;
        frees = λ w p b. refl;
        closes = λ h w p b. refl;
      }
      ("WireGuard Tunnel", refl, refl)
