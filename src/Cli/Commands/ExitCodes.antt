-- ===== src/Cli/Commands/ExitCodes.antt =====
-- The exit codes of the commands of src/main.cpp.
use disping.Common.{ℕ, ◌≡◌, refl, Option, none, some, List, String}
use disping.Common.State.{State}
use disping.Console.{print_header}
use disping.Latency.Daemon.{TimerDaemon}
use disping.Network.{apply_all_network_tweaks}
use disping.Adapter.Wifi.{optimize_all_network_adapters}
use disping.Program.{Program}
use disping.Cli.Boost.{unless_thrown}
use disping.Cli.Commands.{
  Command, all, network, adapter, wifi, heal, timer, ping, mtu, dns, games, clean_mem, restore,
  compare, vpn_check, status, hardware, version, Exit, code_of, exit_timer, run_timer,
  show_and_exit, run_command,
}

-- The command ends with the code, unless it throws.
abbrev pub Exits : ℕ → Option Exit → Type 0
Exits code none = Unit
Exits code (some (c, s)) = c ≡ code

abbrev IsZero : Option Exit → Type 0
IsZero o = Exits 0 o

unless_thrown-IsZero :
    {W A : Type 0} (k : A → State W (Option Exit)) (o : Option A) (w : W)
    → ((a : A) (v : W) → IsZero (k a v).0)
    → IsZero (unless_thrown k o w).0
unfolding unless_thrown
unless_thrown-IsZero k none w h = tt
unless_thrown-IsZero k (some a) w h = h a w

module _ {W D : Type 0} (p : Program W D) where
  open p use {parts, api, wlan, console}

  exit_timer-IsZero : (o : Option TimerDaemon) (w : W) → IsZero (exit_timer p o w).0
  unfolding exit_timer
  exit_timer-IsZero none w = tt
  exit_timer-IsZero (some d) w = refl

  run_timer-IsZero : (o : Option TimerDaemon) (w : W) → IsZero (run_timer p o w).0
  unfolding run_timer
  run_timer-IsZero none w = tt
  run_timer-IsZero (some d) w = exit_timer-IsZero _ _

  -- The commands that look at what they have done: those for the network and for the adapters.
  abbrev pub expected_code : Command → W → ℕ
  expected_code network w =
      code_of
        (apply_all_network_tweaks api parts.store
          (print_header console "TCP/IP Network Tweaks" w).1).0
  expected_code adapter w =
      code_of
        (optimize_all_network_adapters parts.store wlan
          (print_header console "Network Adapter Tuning" w).1).0
  expected_code _ w = 0

  -- A command that ends without an exception has the exit code 1 if it is --network or
  -- --adapter and its operation reports a failure, and the exit code 0 otherwise, whatever
  -- its operation reports.
  pub run_command-Exits :
      (c : Command) (rest : List String) (w : W)
      → Exits (expected_code c w) (run_command p c rest w).0
  unfolding run_command show_and_exit
  run_command-Exits all rest w = unless_thrown-IsZero _ _ _ λ s v. refl
  run_command-Exits network rest w = refl
  run_command-Exits adapter rest w = refl
  run_command-Exits wifi rest w = refl
  run_command-Exits heal rest w = unless_thrown-IsZero _ _ _ λ r v. refl
  run_command-Exits timer rest w = run_timer-IsZero _ _
  run_command-Exits ping rest w = refl
  run_command-Exits mtu rest w = refl
  run_command-Exits dns rest w = refl
  run_command-Exits games rest w = unless_thrown-IsZero _ _ _ λ r v. refl
  run_command-Exits clean_mem rest w = refl
  run_command-Exits restore rest w = refl
  run_command-Exits compare rest w = refl
  run_command-Exits vpn_check rest w = refl
  run_command-Exits status rest w = refl
  run_command-Exits hardware rest w = refl
  run_command-Exits version rest w = refl
