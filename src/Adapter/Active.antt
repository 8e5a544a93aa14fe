-- ===== src/Adapter/Active.antt =====
-- src/adapter_optimizer.cpp: GetActiveAdapters, which the MTU and the DNS optimizer use.
use Prim.Native.String.{◌++◌}
use disping.Common.{
  ℕ, ◌/◌, ◌%◌, String, Bool, true, not, ◌&&◌, ◌||◌, none, some, List, [], ◌∷◌, ◌==◌, if◌then◌else◌,
}
use disping.Common.State.{State, ◌>>=◌, pure}
use disping.Common.Text.{two_hex}
use disping.Windows.System.{SocketAddress, AdapterAddresses, SystemApi, unicast_only}
use disping.Vpn.{is_virtual_or_vpn_adapter, adapters}

pub record NetworkAdapterInfo : Type 0 where
  pub id : String
  pub name : String
  pub description : String
  pub mac_address : String
  pub ipv4_address : String
  pub mtu : ℕ
  pub speed_mbps : ℕ
  pub is_physical : Bool
  pub is_connected : Bool

mac_rest : List ℕ → String
unfolding two_hex
mac_rest [] = ""
mac_rest (b ∷ rest) = "-" ++ two_hex b ++ mac_rest rest

mac_text : List ℕ → String
unfolding mac_rest
mac_text [] = ""
mac_text (b ∷ rest) = two_hex b ++ mac_rest rest

-- The first AF_INET address.
first_ipv4 : List SocketAddress → String
first_ipv4 [] = ""
first_ipv4 (a ∷ rest) = if a.is_inet then a.ip else first_ipv4 rest

-- IF_TYPE_ETHERNET_CSMACD, IF_TYPE_IEEE80211, IF_TYPE_SOFTWARE_LOOPBACK, IF_TYPE_TUNNEL
abbrev ethernet : ℕ
ethernet = 6

abbrev wireless : ℕ
wireless = 71

abbrev loopback : ℕ
loopback = 24

abbrev tunnel : ℕ
tunnel = 131

unfoldable pub adapter_info : AdapterAddresses → NetworkAdapterInfo
unfolding mac_text first_ipv4
adapter_info a = record {
  id = a.adapter_name;
  name = a.friendly_name;
  description = a.description;
  mac_address = mac_text a.physical_address;
  ipv4_address = first_ipv4 a.unicast;
  mtu = a.mtu;
  speed_mbps = a.transmit_link_speed / 1000000 % 0x1_0000_0000;
  is_physical =
      (a.if_type == ethernet || a.if_type == wireless)
      && not (is_virtual_or_vpn_adapter a.friendly_name a.description);
  is_connected = true;
}

unfoldable pub active_infos : List AdapterAddresses → List NetworkAdapterInfo
unfolding adapter_info
active_infos [] = []
active_infos (a ∷ rest) =
    let infos = active_infos rest in
    if not a.is_up || (a.if_type == loopback || a.if_type == tunnel)
    then infos
    else adapter_info a ∷ infos

module _ {W : Type 0} (api : SystemApi W) where
  unfoldable pub get_active_adapters : State W (List NetworkAdapterInfo)
  get_active_adapters = do
    found ← adapters api unicast_only
    pure (elim found [ none ↦ [] | some list ↦ active_infos list ])
