-- ===== src/Cli/Exits.antt =====
-- The exit code of `main` of src/main.cpp.
use disping.Common.{
  ℕ, zero, suc, String, Bool, true, false, ◌||◌, Option, none, some, List, [], ◌∷◌, ◌≡◌, refl,
  OperationResult, if◌then◌else◌, Bool-cases, inl, inr, sym,
}
use disping.Common.State.{State}
use disping.Common.Text.{codes, same, same-eq}
use disping.Console.{print_header, init_console}
use disping.Network.{apply_all_network_tweaks}
use disping.Adapter.Wifi.{optimize_all_network_adapters}
use disping.Program.{Program}
use disping.Cli.Menu.{ask_choice, act_on}
use disping.Cli.Menu.Prompts.{Session, new_session}
use disping.Cli.Boost.{heal_now}
use disping.Cli.Commands.{
  Command, all, network, adapter, wifi, heal, timer, ping, mtu, dns, games, clean_mem, restore,
  compare, vpn_check, status, hardware, version, Exit, command_of,
}
use disping.Cli.Commands.ExitCodes.{Exits, expected_code, run_command-Exits}
use disping.Cli.Fuel
use disping.Cli.{
  Outcome, exited, crashed, unfinished, destroyed, is_quit, leave, go_on, finish, interactive,
  command_done, dispatch, handle_arguments, after_healing, main,
}

-- The program exits with the code, unless it crashes or the fuel is used up.
abbrev pub ExitsWith : ℕ → Outcome → Type 0
ExitsWith code (exited c) = c ≡ code
ExitsWith code crashed = Unit
ExitsWith code unfinished = Unit

module _ {W D : Type 0} (p : Program W D) where
  open p use {parts, api, wlan, console, wsa_startup}

  leave-ExitsWith : (code : ℕ) (s : Session) (w : W) → ExitsWith code (leave p code s w).0
  unfolding leave
  leave-ExitsWith code s w = elim (Bool-cases (destroyed s.proxy).terminated) [
    | inl ends ↦ rw ends tt
    | inr lives ↦ rw lives refl
  ]

  finish-ExitsWith : (s : Session) (w : W) → ExitsWith 0 (finish p s w).0
  unfolding finish
  finish-ExitsWith s w = leave-ExitsWith 0 _ _

  go_on-ExitsWith :
      (f : Session → State W Outcome) (s : Option Session) (w : W)
      → ((s' : Session) → ExitsWith 0 (f s' w).0)
      → ExitsWith 0 (go_on p f s w).0
  go_on-ExitsWith f none w h = tt
  go_on-ExitsWith f (some s) w h = h s

  interactive-ExitsWith : (fuel : ℕ) (s : Session) (w : W) → ExitsWith 0 (interactive p fuel s w).0
  interactive-ExitsWith zero s w = rw (Fuel.interactive-zero p s w) tt
  interactive-ExitsWith (suc fuel) s w = elim (Bool-cases (is_quit (ask_choice p w).0)) [
    | inl quits ↦
        rw (Fuel.interactive-quit p fuel s w quits) (finish-ExitsWith s (ask_choice p w).1)
    | inr acts ↦
        let (choice, w1) = ask_choice p w in
        let (s', w2) = act_on p choice s w1 in
        rw (Fuel.interactive-act p fuel s w acts)
          (go_on-ExitsWith (interactive p fuel) s' w2 (λ s2. interactive-ExitsWith fuel s2 w2))
  ]

  command_done-ExitsWith :
      (code : ℕ) (o : Option Exit) (w : W) → Exits code o → ExitsWith code (command_done p o w).0
  unfolding command_done
  command_done-ExitsWith code none w h = tt
  command_done-ExitsWith code (some (c, s)) w h =
      rw h (leave-ExitsWith code (record new_session { latency = s }) _)

  abbrev expected : Option Command → W → ℕ
  expected none w = 0
  expected (some c) w = expected_code p c w

  dispatch-ExitsWith :
      (fuel : ℕ) (rest : List String) (c : Option Command) (w : W)
      → ExitsWith (expected c w) (dispatch p fuel rest c w).0
  unfolding dispatch
  dispatch-ExitsWith fuel rest none w = interactive-ExitsWith fuel new_session w
  dispatch-ExitsWith fuel rest (some c) w =
      command_done-ExitsWith (expected_code p c w) _ _ (run_command-Exits p c rest w)

  -- The code with which the first argument of the command line lets the program end.
  abbrev pub told : List String → W → ℕ
  told [] w = 0
  told (arg ∷ rest) w =
      if same (codes arg) (codes "--network") || same (codes arg) (codes "-n")
      then (if (apply_all_network_tweaks api parts.store
            (print_header console "TCP/IP Network Tweaks" w).1).0.success
          then 0
          else 1)
      else if same (codes arg) (codes "--adapter")
      then (if (optimize_all_network_adapters parts.store wlan
            (print_header console "Network Adapter Tuning" w).1).0.success
          then 0
          else 1)
      else 0

  -- A command that does not tell its caller of a failure.
  record Silent (o : Option Command) : Type 0 where
    code : (w : W) → expected o w ≡ 0

  Silent-if :
      (b : Bool) (c : Command) {o : Option Command}
      → ((w : W) → expected_code p c w ≡ 0)
      → Silent o
      → Silent (if b then some c else o)
  Silent-if true c h later = record { code = h }
  Silent-if false c h later = later

  Silent-none : Silent none
  Silent-none = record { code = λ w. refl }

  other-Silent :
      (arg : String)
      → same (codes arg) (codes "--network") ≡ false
      → same (codes arg) (codes "-n") ≡ false
      → same (codes arg) (codes "--adapter") ≡ false
      → Silent (command_of arg)
  unfolding command_of
  other-Silent arg n s a =
      rw (n, s, a)
        (Silent-if _ all (λ w. refl)
          (Silent-if _ wifi (λ w. refl)
            (Silent-if _ heal (λ w. refl)
              (Silent-if _ timer (λ w. refl)
                (Silent-if _ ping (λ w. refl)
                  (Silent-if _ mtu (λ w. refl)
                    (Silent-if _ dns (λ w. refl)
                      (Silent-if _ games (λ w. refl)
                        (Silent-if _ clean_mem (λ w. refl)
                          (Silent-if _ restore (λ w. refl)
                            (Silent-if _ compare (λ w. refl)
                              (Silent-if _ vpn_check (λ w. refl)
                                (Silent-if _ status (λ w. refl)
                                  (Silent-if _ hardware (λ w. refl)
                                    (Silent-if _ version (λ w. refl) Silent-none)))))))))))))))

  network-command :
      (arg : String) → same (codes arg) (codes "--network") ≡ true → command_of arg ≡ some network
  unfolding command_of same
  network-command arg h = rw (same-eq (codes arg) (codes "--network") h) refl

  n-command : (arg : String) → same (codes arg) (codes "-n") ≡ true → command_of arg ≡ some network
  unfolding command_of same
  n-command arg h = rw (same-eq (codes arg) (codes "-n") h) refl

  adapter-command :
      (arg : String) → same (codes arg) (codes "--adapter") ≡ true → command_of arg ≡ some adapter
  unfolding command_of same
  adapter-command arg h = rw (same-eq (codes arg) (codes "--adapter") h) refl

  command-told :
      (arg : String) (rest : List String) (w : W)
      → expected (command_of arg) w ≡ told (arg ∷ rest) w
  command-told arg rest w = elim (Bool-cases (same (codes arg) (codes "--network"))) [
    | inl long ↦ rw (long, network-command arg long) refl
    | inr not_long ↦ elim (Bool-cases (same (codes arg) (codes "-n"))) [
      | inl short ↦ rw (not_long, short, n-command arg short) refl
      | inr not_short ↦ elim (Bool-cases (same (codes arg) (codes "--adapter"))) [
        | inl name ↦ rw (not_long, not_short, name, adapter-command arg name) refl
        | inr other ↦
            rw (not_long, not_short, other) ((other-Silent arg not_long not_short other).code w)
      ]
    ]
  ]

  arguments-ExitsWith :
      (fuel : ℕ) (args : List String) (w : W)
      → ExitsWith (told args w) (handle_arguments p fuel args w).0
  unfolding handle_arguments
  arguments-ExitsWith fuel [] w = interactive-ExitsWith fuel new_session w
  arguments-ExitsWith fuel (arg ∷ rest) w =
      rw (sym (command-told arg rest w)) (dispatch-ExitsWith fuel rest (command_of arg) w)

  healed-ExitsWith :
      (fuel : ℕ) (args : List String) (r : Option OperationResult) (w : W)
      → ExitsWith (told args w) (after_healing p fuel args r w).0
  unfolding after_healing
  healed-ExitsWith fuel args none w = tt
  healed-ExitsWith fuel args (some r) w = arguments-ExitsWith fuel args w

  -- main, unless it crashes or its fuel is used up, exits with 1 exactly if its first
  -- argument is --network, -n or --adapter and the operation that follows, in the world that
  -- the healing at the start leaves, reports a failure, and with 0 for any other argument,
  -- none and the menu included, whatever the operations report.
  pub main-ExitsWith :
      (fuel : ℕ) (args : List String) (w : W)
      → let healed = (heal_now p (init_console console (wsa_startup w).1).1).1 in
        ExitsWith (told args healed) (main p fuel args w).0
  unfolding main
  main-ExitsWith fuel args w = healed-ExitsWith fuel args _ _
