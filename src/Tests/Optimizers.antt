-- ===== src/Tests/Optimizers.antt =====
-- The theorems about the optimizers that write the registry, at work on the registry in memory.
use disping.Common.{All}
use disping.Common.{ℕ, String, ◌≡◌, refl, true, false, none, some, [], ◌∷◌}
use disping.Common.{◌+◌, ◌-◌, ◌/◌, ltb}
use disping.Vpn.{
  is_vpn_or_dpi_bypass_active, has_fake_ip_or_vpn_dns, adapters, any_protected,
  is_process_protected, any_fake_ip_adapter, is_fake_ip,
}
use disping.Common.State.{State}
use disping.Common.State.Keeps.{Keeps}
use disping.Windows.Registry.{Place, place, alias, hklm}
use disping.Windows.Icmp.{IcmpApi}
use disping.Windows.Services.{TimerApi}
use disping.Windows.Processes.{ProcessApi}
use disping.Mtu.{auto_detect_and_apply_mtu}
use disping.Mtu.Shield
use disping.Network.{are_tweaks_applied, apply_all_network_tweaks}
use disping.Network.Applied
use disping.Qos.{is_qos_enabled, setup_gaming_qos_policies, remove_gaming_qos_policies}
use disping.Qos.Policies
use disping.Backup.{restore_factory_defaults}
use disping.Backup.Defaults
use disping.Windows.Dns.{DnsApi, Latencies}
use disping.Dns.{is_shielded, auto_select_fastest_dns}
use disping.Dns.Shield as DnsShield
use disping.Process.{boost_process_by_name}
use disping.Process.Shield as ProcessShield
use disping.Memory.Shield as MemoryShield
use disping.Common.State.{count_each}
use disping.Common.Text.{has_prefix, contains}
use disping.Registry.{
  set_dword, set_string, delete_value, enumerate_sub_keys, enumerate_loop, is_running_as_admin,
}
use disping.Network.{
  optimize_tcp_no_delay_and_ack_frequency, get_interface_guids, tune_interface, tune_interfaces,
  optimize_network_throttling_and_responsiveness, write_profile, optimize_tcp_parameters,
  optimize_tcp_global_netsh, run_commands, choose_congestion_provider,
}
use disping.Qos.{enable_user_tos, write_tos, write_policy, remove_policy}
use disping.Backup.{reset_stack, reset_interface, run_restore_commands}
use disping.Latency.{restore_timer_resolution}
use disping.Store.Keeps.{Holds, enumerate-Holds}
use disping.Tests.Machine.{Machine, machine_laws, lookup, set_entry, delete_entry, enum_entry}
use disping.Tests.Components.{two_adapters, memory_store, steady}

-- The world stays as it is.
abbrev pub Same : Machine → Type 0
Same w = w ≡ two_adapters

abbrev pub one_path : IcmpApi Machine
one_path = record {
  icmp_create_file = λ w. (some 5, w);
  icmp_close_handle = λ h w. (tt, w);
  inet_addr = λ host. 0xFFFF_FFFF;
  gethostbyname = λ host w. (some 16843009, w);
  icmp_send_echo = λ h a n w. ((1, 0), w);
}

auto_detect_and_apply_mtu-Keeps_example :
    Keeps Same (auto_detect_and_apply_mtu steady one_path "1.1.1.1")
auto_detect_and_apply_mtu-Keeps_example =
    Shield.auto_detect_and_apply_mtu-Keeps steady one_path
      record {
        creates = record { at = λ w h. h };
        closes = λ c. record { at = λ w h. h };
        resolves = λ host. record { at = λ w h. h };
        sends = λ c a n. record { at = λ w h. h };
        lists = λ flags n. record { at = λ w h. h };
        commands = λ name mtu real. record { at = λ w h. h };
      }
      "1.1.1.1"

-- No command changes anything here.
every_command : All (Applied.Leaves memory_store steady) Applied.stack_commands
every_command = (
  (λ w. refl),
  ((λ w. refl), ((λ w. refl), ((λ w. refl), ((λ w. refl), ((λ w. refl), ((λ w. refl), tt)))))),
)

are_tweaks_applied-apply_all_network_tweaks_example :
    (are_tweaks_applied memory_store
      (apply_all_network_tweaks steady memory_store two_adapters).1).0
    ≡ true
unfolding machine_laws apply_all_network_tweaks optimize_tcp_no_delay_and_ack_frequency
    get_interface_guids tune_interface tune_interfaces
    optimize_network_throttling_and_responsiveness write_profile optimize_tcp_parameters
    optimize_tcp_global_netsh run_commands choose_congestion_provider count_each is_running_as_admin
    set_dword set_entry enumerate_sub_keys enumerate_loop enum_entry lookup alias has_prefix
    contains
are_tweaks_applied-apply_all_network_tweaks_example =
    Applied.are_tweaks_applied-apply_all_network_tweaks memory_store steady every_command
      ((λ w. refl), ((λ w. refl), ((λ w. refl), tt))) two_adapters refl refl

is_qos_enabled-setup_gaming_qos_policies_example :
    (is_qos_enabled memory_store
      (setup_gaming_qos_policies memory_store ("cs2.exe" ∷ []) two_adapters).1).0
    ≡ true
unfolding setup_gaming_qos_policies enable_user_tos is_running_as_admin write_tos set_dword
    set_entry set_string count_each write_policy
is_qos_enabled-setup_gaming_qos_policies_example =
    Policies.is_qos_enabled-setup_gaming_qos_policies memory_store ("cs2.exe" ∷ []) two_adapters
      refl refl

abbrev pub some_place : Place
some_place = place hklm "Software" "Value"

remove_gaming_qos_policies-Keeps_example :
    Keeps (Holds memory_store some_place none) (remove_gaming_qos_policies memory_store steady)
remove_gaming_qos_policies-Keeps_example =
    Policies.remove_gaming_qos_policies-Keeps memory_store steady
      (Holds memory_store some_place none) (enumerate-Holds memory_store some_place none hklm)
      (λ sk ours. record { at = λ w h. h })

abbrev pub no_timer : TimerApi Machine
no_timer = record {
  has_nt_set = false;
  nt_set_timer_resolution = λ n on w. ((0, n), w);
  time_begin_period = λ p w. (0, w);
  time_end_period = λ p w. (0, w);
}

abbrev pub no_text : ℕ → String
no_text n = ""

every_default : All (Defaults.Leaves memory_store steady) Defaults.default_commands
every_default = (
  (λ w. refl),
  ((λ w. refl), ((λ w. refl), ((λ w. refl), ((λ w. refl), ((λ w. refl), ((λ w. refl), tt)))))),
)

are_tweaks_applied-restore_factory_defaults_example :
    (are_tweaks_applied memory_store
      (restore_factory_defaults memory_store steady no_timer no_text two_adapters).1).0
    ≡ false
unfolding machine_laws restore_factory_defaults reset_stack reset_interface run_restore_commands
    restore_timer_resolution remove_gaming_qos_policies remove_policy count_each is_running_as_admin
    set_dword set_entry delete_value delete_entry enumerate_sub_keys enumerate_loop enum_entry
    lookup alias has_prefix contains
are_tweaks_applied-restore_factory_defaults_example =
    Defaults.are_tweaks_applied-restore_factory_defaults memory_store steady no_timer no_text
      every_default (λ sk w ours. refl) two_adapters refl refl refl

abbrev pub calm : ProcessApi Machine
calm = record {
  open_process = λ access pid w. (some pid, w);
  close_handle = λ h w. (tt, w);
  current_process = 1;
  empty_working_set = λ h w. (true, w);
  set_priority_class = λ h c w. (true, w);
  get_priority_class = λ h w. (32, w);
  set_process_affinity_mask = λ h m w. (true, w);
  get_process_affinity_mask = λ h w. (255, w);
  open_process_token = λ w. (some 3, w);
  lookup_privilege_value = λ name w. (some 13, w);
  adjust_token_privileges = λ t l w. ((true, 0), w);
  global_memory_status = λ w. (some (17179869184, 8589934592, 50), w);
  has_nt_set_system_information = true;
  purge_standby_list = λ w. (true, w);
}

abbrev pub one_server : DnsApi Machine ℕ
one_server = record {
  open_socket = λ ip w. (some 9, w);
  clock = λ w. (100, w);
  send = λ s packet w. (true, w);
  receive = λ s w. (true, w);
  close_socket = λ s w. (tt, w);
  sleep = λ t w. (tt, w);
}

abbrev pub milliseconds : Latencies ℕ
milliseconds = record {
  zero_ms = 0;
  failed = 9999;
  unreachable = 999;
  is_valid = λ l. ltb l 9000;
  plus = λ a b. a + b;
  minus = λ a b. a - b;
  over = λ a n. a / n;
  fixed = λ l. "";
}

auto_select_fastest_dns-shielded_example :
    Same (auto_select_fastest_dns steady one_server milliseconds (λ list. list) two_adapters).1
    × ((is_shielded steady one_server milliseconds (λ list. list) two_adapters).0 ≡ true
        → (auto_select_fastest_dns steady one_server milliseconds (λ list. list) two_adapters).1
          ≡ (is_shielded steady one_server milliseconds (λ list. list) two_adapters).1)
unfolding is_shielded is_vpn_or_dpi_bypass_active has_fake_ip_or_vpn_dns adapters any_protected
    is_process_protected any_fake_ip_adapter is_fake_ip has_prefix
auto_select_fastest_dns-shielded_example =
    DnsShield.auto_select_fastest_dns-shielded {P = Same} steady one_server milliseconds
      (λ list. list)
      record {
        opens = λ ip. record { at = λ w h. h };
        clocks = record { at = λ w h. h };
        sends = λ s packet. record { at = λ w h. h };
        receives = λ s. record { at = λ w h. h };
        closes = λ s. record { at = λ w h. h };
        sleeps = λ t. record { at = λ w h. h };
        lists = λ flags n. record { at = λ w h. h };
        flushes = record { at = λ w h. h };
        sets = λ name ip real. record { at = λ w h. h };
        adds = λ name ip real. record { at = λ w h. h };
      }
      two_adapters refl

abbrev pub all_threads : State Machine ℕ
all_threads w = (252, w)

boost_process_by_name-Keeps_example :
    Keeps Same (boost_process_by_name calm all_threads steady "cs2.exe" true)
boost_process_by_name-Keeps_example =
    ProcessShield.boost_process_by_name-Keeps calm all_threads steady
      record {
        opens = λ pe seen real. record { at = λ w h. h };
        closes = λ c. record { at = λ w h. h };
        priorities = λ c class. record { at = λ w h. h };
        affinities = λ c m. record { at = λ w h. h };
        masks = record { at = λ w h. h };
        snapshots = record { at = λ w h. h };
      }
      "cs2.exe" true
