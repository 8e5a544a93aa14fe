-- ===== src/Mtu/Shield.antt =====
-- The commands that src/mtu_optimizer.cpp issues.
use disping.Common.{
  ℕ, zero, suc, ◌+◌, ◌-◌, String, ◌≡◌, Bool, false, Option, none, some, List, [], ◌∷◌, leb,
  Bool-cases, inl, inr,
}
use disping.Common.State.{State}
use disping.Common.State.Keeps.{Keeps, each-Keeps, keeps_rules}
use disping.Windows.Icmp.{IcmpApi}
use disping.Windows.System.{SystemApi, AddressFlags}
use disping.Vpn.{is_virtual_or_vpn_adapter, adapters}
use disping.Adapter.Active.{NetworkAdapterInfo, get_active_adapters}
use disping.Mtu.Search.{middle, search_payload-done, search_payload-fits, search_payload-large}
use disping.Mtu.{
  probe_file, MtuResult, apply_mtu_to_adapters, resolve, send_probe, probe_packet_size,
  search_payload, discover_optimal_mtu, mtu_command, apply_mtu_to_interface, apply_if_physical,
  auto_detect_and_apply_mtu,
}

module _ {W : Type 0} {P : W → Type 0} where
  search_payload-Keeps :
      (probe : ℕ → State W Bool)
      → ((n : ℕ) → Keeps P (probe n))
      → (fuel low high : ℕ) (best : Option ℕ) → Keeps P (search_payload probe fuel low high best)
  unfolding search_payload
  search_payload-Keeps probe kept zero low high best = record { at = λ w h. h }
  search_payload-Keeps probe kept (suc fuel) low high best = record {
    at = λ w h.
        let mid = middle probe fuel low high best w in
        let w1 = (probe mid w).1 in
        let h1 = (kept mid).at w h in
        elim (Bool-cases (leb low high)) [
          | inr done ↦ rw (search_payload-done probe fuel low high best w done) h
          | inl more ↦ elim (Bool-cases (probe mid w).0) [
            | inl fits ↦
                rw (search_payload-fits probe fuel low high best w more fits)
                  ((search_payload-Keeps probe kept fuel (mid + 1) high (some mid)).at w1 h1)
            | inr large ↦
                rw (search_payload-large probe fuel low high best w more large)
                  ((search_payload-Keeps probe kept fuel low (mid - 1) best).at w1 h1)
          ]
        ];
  }

  discover_optimal_mtu-Keeps :
      (probe : ℕ → State W Bool)
      → ((n : ℕ) → Keeps P (probe n))
      → Keeps P (discover_optimal_mtu probe)
  unfolding discover_optimal_mtu
  discover_optimal_mtu-Keeps probe kept =
      search (keeps_rules, search_payload-Keeps probe kept, kept) depth 12

-- What a property of the world has to survive: the questions, and the commands for adapters that
-- are not virtual.
pub record MtuCalls {W : Type 0} (P : W → Type 0) (api : SystemApi W) (icmp : IcmpApi W)
    : Type 0 where
  pub creates : Keeps P icmp.icmp_create_file
  pub closes : (h : ℕ) → Keeps P (icmp.icmp_close_handle h)
  pub resolves : (host : String) → Keeps P (icmp.gethostbyname host)
  pub sends : (h a n : ℕ) → Keeps P (icmp.icmp_send_echo h a n)
  pub lists : (flags : AddressFlags) (n : ℕ) → Keeps P (api.get_adapters_addresses flags n)
  pub commands :
      (name : String) (mtu : ℕ)
      → is_virtual_or_vpn_adapter name "" ≡ false
      → Keeps P (api.system (mtu_command api name mtu))

module _ {W : Type 0} {P : W → Type 0} (api : SystemApi W) (icmp : IcmpApi W)
    (calls : MtuCalls P api icmp) where
  open calls use {creates, closes, resolves, sends, lists, commands}

  resolve-Keeps : (host : String) → Keeps P (resolve icmp host)
  unfolding resolve
  resolve-Keeps host = search (keeps_rules, resolves)

  send_probe-Keeps : (h n : ℕ) (address : Option ℕ) → Keeps P (send_probe icmp h n address)
  unfolding send_probe
  send_probe-Keeps h n none = search (keeps_rules, closes)
  send_probe-Keeps h n (some a) = search (keeps_rules, sends, closes)

  probe_file-Keeps :
      (host : String) (n : ℕ) (file : Option ℕ) → Keeps P (probe_file icmp host n file)
  unfolding probe_file
  probe_file-Keeps host n none = search keeps_rules
  probe_file-Keeps host n (some h) = search (keeps_rules, resolve-Keeps, send_probe-Keeps)

  probe_packet_size-Keeps : (host : String) (n : ℕ) → Keeps P (probe_packet_size icmp host n)
  unfolding probe_packet_size
  probe_packet_size-Keeps host n = search (keeps_rules, creates, probe_file-Keeps)

  get_active_adapters-Keeps : Keeps P (get_active_adapters api)
  unfolding get_active_adapters adapters
  get_active_adapters-Keeps = search (keeps_rules, lists) depth 9

  apply_mtu_to_interface-Keeps :
      (name : String) (mtu : ℕ) → Keeps P (apply_mtu_to_interface api name mtu)
  unfolding apply_mtu_to_interface
  apply_mtu_to_interface-Keeps name mtu = record {
    at = λ w h. elim (Bool-cases (is_virtual_or_vpn_adapter name "")) [
      | inl bad ↦ rw bad h
      | inr good ↦ rw good ((commands name mtu good).at w h)
    ];
  }

  apply_if_physical-Keeps :
      (mtu : ℕ) (nic : NetworkAdapterInfo) → Keeps P (apply_if_physical api mtu nic)
  unfolding apply_if_physical
  apply_if_physical-Keeps mtu nic = search (keeps_rules, apply_mtu_to_interface-Keeps)

  apply_mtu_to_adapters-Keeps :
      (r : MtuResult) (list : List NetworkAdapterInfo) → Keeps P (apply_mtu_to_adapters api r list)
  unfolding apply_mtu_to_adapters
  apply_mtu_to_adapters-Keeps r [] = search keeps_rules
  apply_mtu_to_adapters-Keeps r (nic ∷ rest) =
      search (keeps_rules, each-Keeps, apply_if_physical-Keeps)

  -- Whatever property of the world the questions keep, and the netsh commands for interfaces
  -- whose names are not those of virtual adapters, the whole run of AutoDetectAndApplyMtu
  -- keeps: it issues no other command.
  pub auto_detect_and_apply_mtu-Keeps :
      (host : String) → Keeps P (auto_detect_and_apply_mtu api icmp host)
  unfolding auto_detect_and_apply_mtu
  auto_detect_and_apply_mtu-Keeps host =
      search
        (
          keeps_rules, discover_optimal_mtu-Keeps, probe_packet_size-Keeps,
          get_active_adapters-Keeps, apply_mtu_to_adapters-Keeps,
        )
        depth 9
