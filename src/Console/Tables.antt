-- ===== src/Console/Tables.antt =====
-- The tables of src/ui_console.cpp.
use Prim.Native.String.{◌++◌, len}
use disping.Common.{
  ℕ, zero, suc, ◌-◌, String, Bool, true, false, not, List, [], ◌∷◌, ltb, if◌then◌else◌,
}
use disping.Common.State.{State, ◌>>◌, pure}
use disping.Common.Text.{to_string}
use disping.Windows.Console.{ConsoleApi}
use disping.Healer.Steam.{is_empty}
use disping.Adapter.Active.{NetworkAdapterInfo}
use disping.Dns.{DnsBenchmarkResult}
use disping.Ping.{Doubles, PingStats, generate_sparkline}
use disping.Console.{coloured, bright_green, red}

-- `std::string(count, c)`.
unfoldable pub repeated : ℕ → String → String
repeated zero c = ""
repeated (suc count) c = c ++ repeated count c

-- `std::left << std::setw(width) << text`: filled up with spaces, never cut.
unfoldable pub setw : ℕ → String → String
unfolding repeated
setw width text = text ++ repeated (width - len text) " "

-- The first 15 bytes of a long name and three dots; `name.substr(0, 15)`, which may cut a character, is a parameter.
unfoldable pub shortened : String → (ℕ → String → String) → String
shortened name prefix = if ltb 18 (len name) then prefix 15 name ++ "..." else name

-- The tables' lines. FormatDouble is a parameter.
abbrev blank_if : Bool → String → String
blank_if true text = text
blank_if false text = "N/A"

module _ {D : Type 0} (d : Doubles D) (format_double : D → ℕ → String) where
  unfoldable pub ping_line : PingStats D → String
  ping_line s =
      let cell = λ (v : D). setw 12 (blank_if (d.less d.zero_ms v) (format_double v 1)) in
      setw 22 s.target
      ++ (cell s.min_rtt_ms
          ++ (cell s.avg_rtt_ms
              ++ (cell s.max_rtt_ms
                  ++ (setw 12 (format_double s.jitter_ms 2)
                      ++ (setw 10 (format_double s.loss_rate 1 ++ "%")
                          ++ (coloured bright_green (generate_sparkline d s.rtt_history 16)
                              ++ "\n"))))))

  unfoldable pub dns_line : DnsBenchmarkResult D → String
  dns_line r =
      setw 25 r.name
      ++ (setw 18 r.primary_ip
          ++ (if r.reachable
              then setw 16 (format_double r.avg_latency_ms 1)
                ++ (coloured bright_green "[ONLINE - FAST]" ++ "\n")
              else setw 16 "TIMEOUT" ++ (coloured red "[OFFLINE]" ++ "\n")))

unfoldable pub adapter_line : (ℕ → String → String) → NetworkAdapterInfo → String
adapter_line prefix nic =
    setw 20 (shortened nic.name prefix)
    ++ (setw 18 (blank_if (not (is_empty nic.ipv4_address)) nic.ipv4_address)
        ++ (setw 18 nic.mac_address
            ++ (setw 8 (to_string nic.mtu) ++ (to_string nic.speed_mbps ++ " Mbps\n"))))

module _ {W : Type 0} (console : ConsoleApi W) where
  open console use {print}

  -- A heading, a ruler, a line for each entry, and the ruler.
  unfoldable pub print_lines : {A : Type 0} → (A → String) → List A → State W Unit
  print_lines line [] = pure tt
  print_lines line (x ∷ list) = do print (line x); print_lines line list

  unfoldable pub print_table : {A : Type 0} → String → ℕ → (A → String) → List A → State W Unit
  print_table heading width line list = do
    print ("\n" ++ heading)
    print (repeated width "-" ++ "\n")
    print_lines line list
    print (repeated width "-" ++ "\n")

  module _ {D : Type 0} (d : Doubles D) (format_double : D → ℕ → String) where
    unfoldable pub print_ping_table : List (PingStats D) → State W Unit
    print_ping_table stats =
        print_table
          (setw 22 "Target Hub"
            ++ (setw 12 "Min (ms)"
                ++ (setw 12 "Avg (ms)"
                    ++ (setw 12 "Max (ms)"
                        ++ (setw 12 "Jitter (ms)"
                            ++ (setw 10 "Loss %" ++ ("Sparkline" ++ "\n")))))))
          80 (ping_line d format_double) stats

    unfoldable pub print_dns_table : List (DnsBenchmarkResult D) → State W Unit
    print_dns_table dns_list =
        print_table
          (setw 25 "DNS Provider"
            ++ (setw 18 "Primary IP" ++ (setw 16 "Latency (ms)" ++ ("Status" ++ "\n"))))
          68 (dns_line d format_double) dns_list

  unfoldable pub print_adapters_table :
      (ℕ → String → String) → List NetworkAdapterInfo → State W Unit
  print_adapters_table prefix adapters =
      print_table
        (setw 20 "Interface Name"
          ++ (setw 18 "IPv4 Address"
              ++ (setw 18 "MAC Address" ++ (setw 8 "MTU" ++ ("Link Speed" ++ "\n")))))
        74 (adapter_line prefix) adapters
