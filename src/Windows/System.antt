-- ===== src/Windows/System.antt =====
-- The other Windows functions that the optimizers call: processes, adapters, services, commands.
use disping.Common.{ℕ, String, Bool, Option, List}
use disping.Common.State.{State}

-- An entry of a Toolhelp32 snapshot, its name as the program narrows it to a `std::string`.
pub record Process : Type 0 where
  pub pid : ℕ
  pub exe : String

-- A socket address: is its family AF_INET, and what inet_ntop prints for it.
pub record SocketAddress : Type 0 where
  pub is_inet : Bool
  pub ip : String

-- IP_ADAPTER_ADDRESSES, its names as UTF-8 texts.
pub record AdapterAddresses : Type 0 where
  pub adapter_name : String
  pub friendly_name : String
  pub description : String
  pub is_up : Bool
  pub if_type : ℕ
  pub physical_address : List ℕ
  pub unicast : List SocketAddress
  pub dns_servers : List SocketAddress
  pub mtu : ℕ
  pub transmit_link_speed : ℕ

-- The flags of GetAdaptersAddresses: GAA_FLAG_INCLUDE_ALL_INTERFACES, or the prefixes and unicast
-- addresses only.
pub data AddressFlags : Type 0 where
  all_interfaces unicast_only : AddressFlags

pub record SystemApi (W : Type 0) : Type 0 where
  -- CreateToolhelp32Snapshot, with what Process32FirstW and Process32NextW then return; `none`
  -- stands for INVALID_HANDLE_VALUE
  pub snapshot : State W (Option (List Process))
  -- GetAdaptersAddresses with flags and a buffer of the given size: status, size needed, adapters
  pub get_adapters_addresses : AddressFlags → ℕ → State W (ℕ × ℕ × List AdapterAddresses)
  -- the exit code of system()
  pub system : String → State W ℕ
  -- what RunCommand reads from the pipe of _popen
  pub run_command : String → State W String
  -- RegDeleteKeyA under HKEY_LOCAL_MACHINE
  pub reg_delete_key : String → State W ℕ

-- The native Wi-Fi interface: status and handle, status and interfaces, status.
pub record WlanApi (W : Type 0) : Type 0 where
  pub wlan_open_handle : State W (ℕ × ℕ)
  pub wlan_enum_interfaces : ℕ → State W (ℕ × Option (List ℕ))
  pub wlan_set_autoconf : ℕ → ℕ → Bool → State W ℕ
  pub wlan_free_memory : State W Unit
  pub wlan_close_handle : ℕ → State W Unit
