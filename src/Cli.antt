-- ===== src/Cli.antt =====
-- `main` of src/main.cpp: the healing at the start, the arguments, and the loop over the menu's keys.
pub mod Boost
pub mod Status
pub mod Commands
pub mod Menu
pub mod Confirm
pub mod Fuel
pub mod Exits
use disping.Common.{
  ℕ, zero, suc, String, Bool, true, false, Option, none, some, List, [], ◌∷◌, OperationResult,
  if◌then◌else◌,
}
use disping.Common.State.{State, ◌>>=◌, ◌>>◌, pure}
use disping.Console.{init_console}
use disping.Latency.{TimerState, restore_timer_resolution}
use disping.Proxy.{UdpProxy, joined, clear, destroy_idle}
use disping.Program.{Program}
use Boost.{heal_now}
use Commands.{Command, Exit, command_of, run_command}
use disping.Cli.Menu.Prompts.{Session, new_session}
use Menu.{Choice, quit, ask_choice, act_on}

-- How `main` ends. An exception that is not caught and std::terminate are a crash; the loop is unfinished where
-- the fuel, the number of keys that are read, is used up.
pub data Outcome : Type 0 where
  exited : ℕ → Outcome
  crashed unfinished : Outcome

-- The destructor of the proxy.
abbrev pub destroyed : UdpProxy → UdpProxy
destroyed proxy = if proxy.running then joined (clear proxy) else destroy_idle proxy

abbrev pub is_quit : Choice → Bool
is_quit quit = true
is_quit _ = false

module _ {W D : Type 0} (p : Program W D) where
  -- The destructors of the local variables that keep a state.
  unfoldable pub leave : ℕ → Session → State W Outcome
  leave code s =
      if (destroyed s.proxy).terminated
      then pure crashed
      else do restore_timer_resolution p.timer p.texts.show_ms s.latency; pure (exited code)

  -- After the loop.
  unfoldable pub finish : Session → State W Outcome
  finish s = do
    (r, latency) ← restore_timer_resolution p.timer p.texts.show_ms s.latency
    p.wsa_cleanup
    leave 0 (record s { latency = latency })

  abbrev pub go_on : (Session → State W Outcome) → Option Session → State W Outcome
  go_on rest none = pure crashed
  go_on rest (some s) = rest s

  unfoldable pub interactive : ℕ → Session → State W Outcome
  interactive zero s w = (unfinished, w)
  interactive (suc fuel) s w =
      let (choice, w1) = ask_choice p w in
      elim (is_quit choice) [
        | true ↦ finish s w1
        | false ↦ let (s', w2) = act_on p choice s w1 in go_on (interactive fuel) s' w2
      ]

  unfoldable pub command_done : Option Exit → State W Outcome
  command_done none = pure crashed
  command_done (some (code, latency)) = do
    p.wsa_cleanup
    leave code (record new_session { latency = latency })

  unfoldable pub dispatch : ℕ → List String → Option Command → State W Outcome
  dispatch fuel rest none = interactive fuel new_session
  dispatch fuel rest (some c) = do r ← run_command p c rest; command_done r

  -- The arguments after the program's name.
  unfoldable pub handle_arguments : ℕ → List String → State W Outcome
  handle_arguments fuel [] = interactive fuel new_session
  handle_arguments fuel (arg ∷ rest) = dispatch fuel rest (command_of arg)

  unfoldable pub after_healing : ℕ → List String → Option OperationResult → State W Outcome
  after_healing fuel args none = pure crashed
  after_healing fuel args (some r) = handle_arguments fuel args

  unfoldable pub main : ℕ → List String → State W Outcome
  main fuel args = do
    p.wsa_startup
    init_console p.console
    healed ← heal_now p
    after_healing fuel args healed
