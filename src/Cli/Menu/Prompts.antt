-- ===== src/Cli/Menu/Prompts.antt =====
-- The objects of `main` in src/main.cpp that the menu changes, and how its choices wait for a key.
use Prim.Native.String.{◌++◌}
use disping.Common.{ℕ, String, Bool, ◌||◌, Option, some, OperationResult, ◌==◌, if◌then◌else◌}
use disping.Common.State.{State, ◌>>=◌, ◌>>◌, pure}
use disping.Latency.{TimerState, new_optimizer}
use disping.Proxy.{UdpProxy, new_proxy}
use disping.Program.{Program}
use disping.Cli.Boost.{print, show}

-- The objects of `main` that keep a state.
pub record Session : Type 0 where
  pub latency : TimerState
  pub proxy : UdpProxy

abbrev pub new_session : Session
new_session = record { latency = new_optimizer; proxy = new_proxy }

-- `c == 'y' || c == 'Y'`.
abbrev pub is_yes : ℕ → Bool
is_yes key = key == b'y' || key == b'Y'

module _ {W D : Type 0} (p : Program W D) where
  open p use {parts, api, wlan, files, console, texts}

  -- "\nPress any key to return to menu..."
  unfoldable pub wait_key : State W Unit
  wait_key = do print p "\nPress any key to return to menu..."; console.getch; pure tt

  -- A question, the key, and what follows a yes.
  unfoldable pub confirmed : String → State W OperationResult → State W Unit
  confirmed question act = do
    print p question
    c ← console.getch
    print p (texts.key c ++ "\n")
    if is_yes c then (do r ← act; show p r) else pure tt

  unfoldable pub show_and_wait : Session → OperationResult → State W (Option Session)
  show_and_wait s r = do show p r; wait_key; pure (some s)

  -- A choice that neither throws nor changes the session.
  unfoldable pub quietly : Session → State W Unit → State W (Option Session)
  quietly s act = do act; pure (some s)
