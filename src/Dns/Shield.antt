-- ===== src/Dns/Shield.antt =====
-- The commands that src/dns_optimizer.cpp issues.
use disping.Common.{
  ℕ, zero, suc, ◌+◌, String, ◌≡◌, refl, Bool, true, false, Option, none, some, List, [], ◌∷◌,
  Bool-cases, inl, inr, if◌then◌else◌,
}
use disping.Common.State.Keeps.{Keeps, keeps_rules, each-Keeps}
use disping.Windows.Dns.{DnsApi, Latencies}
use disping.Windows.System.{SystemApi, AddressFlags}
use disping.Vpn.{is_virtual_or_vpn_adapter, adapters}
use disping.Adapter.Active.{NetworkAdapterInfo, get_active_adapters}
use disping.Dns.{
  answer, query_packet, exchange, measure_on, measure_dns_latency, measure_rounds,
  benchmark_entries, DnsEntry, DnsBenchmarkResult, benchmark_dns_providers, flush_command,
  flush_dns_cache, set_command, add_command, write_dns_servers, set_dns_servers, set_if_physical,
  configure, configure_best, select_fastest, is_shielded, auto_select_fastest_dns,
}

-- What a property of the world has to survive: the benchmark, the list of adapters, the flush of the cache, and the commands
-- for interfaces that are not virtual.
pub record DnsCalls {W D : Type 0} (P : W → Type 0) (api : SystemApi W) (dns : DnsApi W D)
    : Type 0 where
  pub opens : (ip : String) → Keeps P (dns.open_socket ip)
  pub clocks : Keeps P dns.clock
  pub sends : (s : ℕ) (packet : List ℕ) → Keeps P (dns.send s packet)
  pub receives : (s : ℕ) → Keeps P (dns.receive s)
  pub closes : (s : ℕ) → Keeps P (dns.close_socket s)
  pub sleeps : (t : ℕ) → Keeps P (dns.sleep t)
  pub lists : (flags : AddressFlags) (n : ℕ) → Keeps P (api.get_adapters_addresses flags n)
  pub flushes : Keeps P (api.system (flush_command api))
  pub sets :
      (name ip : String)
      → is_virtual_or_vpn_adapter name "" ≡ false
      → Keeps P (api.system (set_command api name ip))
  pub adds :
      (name ip : String)
      → is_virtual_or_vpn_adapter name "" ≡ false
      → Keeps P (api.system (add_command api name ip))

module _ {W D : Type 0} {P : W → Type 0} (api : SystemApi W) (dns : DnsApi W D) (lat : Latencies D)
    (sort : List (DnsBenchmarkResult D) → List (DnsBenchmarkResult D))
    (calls : DnsCalls P api dns) where
  open calls use {opens, clocks, sends, receives, closes, sleeps, lists, flushes, sets, adds}

  answer-Keeps : (s : ℕ) (t : D) (sent : Bool) → Keeps P (answer dns lat s t sent)
  unfolding answer
  answer-Keeps s t false = search (keeps_rules, closes)
  answer-Keeps s t true = record {
    at = λ w h.
        let w1 = (dns.receive s w).1 in
        (closes s).at (dns.clock w1).1 (clocks.at w1 ((receives s).at w h));
  }

  exchange-Keeps : (s : ℕ) (domain : String) → Keeps P (exchange dns lat s domain)
  unfolding exchange
  exchange-Keeps s domain = record {
    at = λ w h.
        let (t1, w1) = dns.clock w in
        let (sent, w2) = dns.send s (query_packet domain) w1 in
        (answer-Keeps s t1 sent).at w2 ((sends s (query_packet domain)).at w1 (clocks.at w h));
  }

  measure_on-Keeps :
      (domain : String) (socket : Option ℕ) → Keeps P (measure_on dns lat domain socket)
  unfolding measure_on
  measure_on-Keeps domain none = search keeps_rules
  measure_on-Keeps domain (some s) = exchange-Keeps s domain

  measure_dns_latency-Keeps : (ip domain : String) → Keeps P (measure_dns_latency dns lat ip domain)
  unfolding measure_dns_latency
  measure_dns_latency-Keeps ip domain = search (keeps_rules, opens, measure_on-Keeps)

  measure_rounds-Keeps :
      (n : ℕ) (ip : String) (sum : D) (valid : ℕ) → Keeps P (measure_rounds dns lat n ip sum valid)
  unfolding measure_rounds
  measure_rounds-Keeps zero ip sum valid = search keeps_rules
  measure_rounds-Keeps (suc n) ip sum valid = record {
    at = λ w h.
        let (l, w1) = measure_dns_latency dns lat ip "valve.net" w in
        let h1 = (measure_dns_latency-Keeps ip "valve.net").at w h in
        (measure_rounds-Keeps n ip (if lat.is_valid l then lat.plus sum l else sum)
            (if lat.is_valid l then valid + 1 else valid)).at
          (dns.sleep 20 w1).1 ((sleeps 20).at w1 h1);
  }

  benchmark_entries-Keeps :
      (n : ℕ) (list : List DnsEntry) → Keeps P (benchmark_entries dns lat n list)
  unfolding benchmark_entries
  benchmark_entries-Keeps n [] = search keeps_rules
  benchmark_entries-Keeps n (prov ∷ rest) = record {
    at = λ w h.
        (benchmark_entries-Keeps n rest).at
          (measure_rounds dns lat n prov.primary lat.zero_ms 0 w).1
          ((measure_rounds-Keeps n prov.primary lat.zero_ms 0).at w h);
  }

  benchmark_dns_providers-Keeps : (n : ℕ) → Keeps P (benchmark_dns_providers dns lat sort n)
  unfolding benchmark_dns_providers
  benchmark_dns_providers-Keeps n = search (keeps_rules, benchmark_entries-Keeps)

  get_active_adapters-Keeps : Keeps P (get_active_adapters api)
  unfolding get_active_adapters adapters
  get_active_adapters-Keeps = search (keeps_rules, lists) depth 9

  flush_dns_cache-Keeps : Keeps P (flush_dns_cache api)
  unfolding flush_dns_cache
  flush_dns_cache-Keeps = search (keeps_rules, flushes)

  write_dns_servers-Keeps :
      (name ip other : String)
      → is_virtual_or_vpn_adapter name "" ≡ false
      → Keeps P (write_dns_servers api name ip other)
  unfolding write_dns_servers flush_dns_cache
  write_dns_servers-Keeps name ip other real =
      search (keeps_rules, sets name ip real, adds name other real, flushes) depth 12

  set_dns_servers-Keeps : (name ip other : String) → Keeps P (set_dns_servers api name ip other)
  unfolding set_dns_servers
  set_dns_servers-Keeps name ip other = record {
    at = λ w h. elim (Bool-cases (is_virtual_or_vpn_adapter name "")) [
      | inl bad ↦ rw bad h
      | inr real ↦ rw real ((write_dns_servers-Keeps name ip other real).at w h)
    ];
  }

  set_if_physical-Keeps :
      (best : DnsBenchmarkResult D) (nic : NetworkAdapterInfo)
      → Keeps P (set_if_physical api dns lat sort best nic)
  unfolding set_if_physical
  set_if_physical-Keeps best nic = search (keeps_rules, set_dns_servers-Keeps)

  configure-Keeps :
      (best : DnsBenchmarkResult D) (list : List NetworkAdapterInfo)
      → Keeps P (configure api dns lat sort best list)
  unfolding configure
  configure-Keeps best [] = search keeps_rules
  configure-Keeps best (nic ∷ rest) = search (keeps_rules, each-Keeps, set_if_physical-Keeps)

  configure_best-Keeps :
      (list : List (DnsBenchmarkResult D)) → Keeps P (configure_best api dns lat sort list)
  unfolding configure_best
  configure_best-Keeps [] = search keeps_rules
  configure_best-Keeps (best ∷ rest) =
      search (keeps_rules, get_active_adapters-Keeps, configure-Keeps)

  select_fastest-Keeps : Keeps P (select_fastest api dns lat sort)
  unfolding select_fastest
  select_fastest-Keeps = search (keeps_rules, benchmark_dns_providers-Keeps, configure_best-Keeps)

  -- Whatever property of the world the benchmark, the list of adapters and the flush of the
  -- cache keep, and the commands for interfaces whose names are not those of virtual
  -- adapters, holds after AutoSelectFastestDns if it holds after the two questions of the VPN
  -- shield; if these say yes, the world is as they left it.
  pub auto_select_fastest_dns-shielded :
      (w : W)
      → P (is_shielded api dns lat sort w).1
      → P (auto_select_fastest_dns api dns lat sort w).1
        × ((is_shielded api dns lat sort w).0 ≡ true
            → (auto_select_fastest_dns api dns lat sort w).1 ≡ (is_shielded api dns lat sort w).1)
  unfolding auto_select_fastest_dns
  auto_select_fastest_dns-shielded w h =
      let (shielded, w1) = is_shielded api dns lat sort w in
      (
        elim (Bool-cases (is_shielded api dns lat sort w).0) [
          | inl on ↦ rw on h
          | inr off ↦ rw off (select_fastest-Keeps.at w1 h)
        ],
        λ on. rw on refl,
      )
