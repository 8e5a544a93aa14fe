-- ===== src/Cli/Menu/Relay.antt =====
-- The choice 9 of the menu in src/main.cpp: the relay.
use Prim.Native.String.{◌++◌}
use disping.Common.{ℕ, String, Option, none, some, OperationResult, if◌then◌else◌}
use disping.Common.State.{State, ◌>>=◌, ◌>>◌, pure}
use disping.Common.Text.{to_string}
use disping.Healer.Steam.{is_empty}
use disping.Console.{print_header}
use disping.Proxy.{UdpProxy, start, joined, clear}
use disping.Proxy.Sockets.{run_worker}
use disping.Program.{Program}
use disping.Cli.Boost.{print, show, unless_thrown}
use disping.Cli.Menu.Prompts.{Session, wait_key}

module _ {W D : Type 0} (p : Program W D) where
  open p use {parts, api, wlan, files, console, texts}

  -- The port that a line stands for; `none` if std::stoi throws.
  abbrev port_of : String → Option ℕ
  port_of line = if is_empty line then some 27015 else texts.port line

  -- The relay runs until a key is hit; `none` if the start has called std::terminate.
  unfoldable pub relay_started :
      Session → ℕ → String → ℕ → OperationResult → UdpProxy → State W (Option Session)
  relay_started s lport rhost rport r proxy = if proxy.terminated then pure none else do
    show p r
    if r.success
        then (do
          print p "Relay running! Press any key to stop...\n"
          proxy' ← run_worker p.udp p.relay_rounds lport rhost rport proxy
          console.getch
          let stopped = if proxy'.running then joined (clear proxy') else proxy'
          print p (
              "Forwarded "
              ++ (to_string stopped.stats.packets_forwarded
                  ++ (" packets ("
                      ++ (to_string stopped.stats.bytes_forwarded
                          ++ (" bytes) with avg latency "
                              ++ (p.latency_text stopped ++ " microseconds.\n"))))))
          wait_key p
          pure (some record s { proxy = stopped }))
        else do wait_key p; pure (some record s { proxy = proxy })

  unfoldable pub relay_to : Session → ℕ → String → ℕ → State W (Option Session)
  relay_to s lport rhost rport =
      let (r, proxy) = start lport rhost rport s.proxy in relay_started s lport rhost rport r proxy

  unfoldable pub ask_remote : Session → ℕ → State W (Option Session)
  ask_remote s lport = do
    print p "Enter Target Remote Host (e.g. 1.1.1.1): "
    rhost ← console.getline
    print p "Enter Target Remote Port (e.g. 27015): "
    line ← console.getline
    unless_thrown (relay_to s lport (if is_empty rhost then "1.1.1.1" else rhost)) (port_of line)

  unfoldable pub choose_relay : Session → State W (Option Session)
  choose_relay s = do
    print_header console "Zero-Copy UDP Fast-Relay Proxy"
    print p "Enter Local Listen Port (e.g. 27015): "
    line ← console.getline
    unless_thrown (ask_remote s) (port_of line)
