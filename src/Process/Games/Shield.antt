-- ===== src/Process/Games/Shield.antt =====
-- The games that FindActiveGames of src/process_optimizer.cpp finds, and the processes that
-- AutoBoostAllActiveGames opens.
use disping.Common.{
  ℕ, String, ◌≡◌, refl, ◌∙◌, sym, subst, Bool, true, false, ◌||◌, Option, none, some, List, [], ◌∷◌,
  All, OperationResult, map, arith, if◌then◌else◌, Bool-cases, Option-cases, inl, inr,
}
use mathlib.Core.Path.{ap₂}
use disping.Common.State.{State}
use disping.Common.State.Keeps.{Keeps, keeps_rules, count_each-Keeps}
use disping.Windows.Registry.{same_text}
use disping.Windows.System.{Process, SystemApi}
use disping.Windows.Processes.{ProcessApi}
use disping.Windows.Snapshot.{Listed, snapshot-AllListed}
use disping.Common.Text.{codes, lower, same}
use disping.Windows.Healing.{HealApi, RegexLib}
use disping.Store.{RegistryStore}
use disping.Vpn.{is_process_protected}
use disping.Healer.{heal_steam_and_games}
use disping.Process.Shield.{BoostCalls, boost_process-Keeps, same_text-is_process_protected}
use disping.Process.Games.{
  RunningProcessInfo, get_known_game_executables, is_known_game, query_information, game_info,
  read_game, listed_games, games_of, find_active_games, boost_game, boost_games, boost_healed,
  auto_boost_all_active_games,
}

-- No known game is protected by the VPN guard.
abbrev IsReal : String → Type 0
IsReal exe = is_process_protected exe ≡ false

known-IsReal : All IsReal get_known_game_executables
unfolding is_process_protected
known-IsReal = ground arith

is_known_game-IsReal :
    (known : List String) (exe : String)
    → All IsReal known
    → is_known_game known exe ≡ true
    → IsReal exe
unfolding is_known_game
is_known_game-IsReal [] exe real h = absurd (ground arith)
is_known_game-IsReal (kg ∷ known) exe real h = elim (Bool-cases (same_text exe kg)) [
  | inl same ↦ same_text-is_process_protected exe kg same ∙ real.0
  | inr other ↦ is_known_game-IsReal known exe real.1 (rw other at h)
]

-- The known games in small letters.
abbrev pub small_names : List String
small_names =
    "cs2.exe" ∷ "csgo.exe" ∷ "valorant.exe" ∷ "valorant-win64-shipping.exe" ∷ "dota2.exe"
    ∷ "r5apex.exe" ∷ "fortniteclient-win64-shipping.exe" ∷ "overwatch.exe" ∷ "rustclient.exe"
    ∷ "escapefromtarkov.exe" ∷ "rainbowsix.exe" ∷ "warzone.exe" ∷ "modernwarfare.exe"
    ∷ "rocketleague.exe" ∷ "league of legends.exe" ∷ "gta5.exe" ∷ "cyberpunk2077.exe" ∷ []

-- The names of the list, compared byte by byte.
abbrev pub is_among : List ℕ → List String → Bool
is_among name [] = false
is_among name (p ∷ list) = same name (codes p) || is_among name list

-- The processes of a snapshot whose names in small letters are those of known games.
abbrev pub known_among : List Process → List Process
known_among [] = []
known_among (pe ∷ list) =
    if is_among (lower (codes pe.exe)) small_names then pe ∷ known_among list else known_among list

abbrev pub identity : RunningProcessInfo → Process
identity g = record { pid = g.pid; exe = g.name }

is_known_game-is_among :
    (exe : String)
    → is_known_game get_known_game_executables exe ≡ is_among (lower (codes exe)) small_names
unfolding is_known_game same_text lower
is_known_game-is_among exe = refl

known_among-All :
    (Q : Process → Type 0) (list : List Process)
    → All Q list
    → All (λ pe. IsReal pe.exe × Q pe) (known_among list)
known_among-All Q [] all = tt
known_among-All Q (pe ∷ list) all =
    elim (Bool-cases (is_among (lower (codes pe.exe)) small_names)) [
      | inl game ↦ rw game (
        (
          is_known_game-IsReal get_known_game_executables pe.exe known-IsReal
              (is_known_game-is_among pe.exe ∙ game),
          all.0,
        ),
        known_among-All Q list all.1,
      )
      | inr other ↦ rw other (known_among-All Q list all.1)
    ]

All-identity :
    (Q : Process → Type 0) (games : List RunningProcessInfo)
    → All Q (map identity games)
    → All (λ g. Q (identity g)) games
All-identity Q [] all = tt
All-identity Q (g ∷ games) all = (all.0, All-identity Q games all.1)

module _ {W : Type 0} (procs : ProcessApi W) where
  game_info-identity :
      (pe : Process) (proc : Option ℕ) (w : W) → identity (game_info procs pe proc w).0 ≡ pe
  unfolding game_info
  game_info-identity pe none w = refl
  game_info-identity pe (some proc) w = refl

  listed_games-known :
      (list : List Process) (w : W) → map identity (listed_games procs list w).0 ≡ known_among list
  unfolding listed_games read_game
  listed_games-known [] w = refl
  listed_games-known (pe ∷ list) w =
      let (proc, w1) = procs.open_process 0x400 pe.pid w in
      elim (Bool-cases (is_among (lower (codes pe.exe)) small_names)) [
        | inr other ↦ rw (is_known_game-is_among pe.exe, other) (listed_games-known list w)
        | inl game ↦
            rw (is_known_game-is_among pe.exe, game)
              (ap₂ ◌∷◌ (game_info-identity pe proc w1)
                (listed_games-known list (game_info procs pe proc w1).1))
      ]

  -- The games that are found are processes of the list, under names that are not protected.
  listed_games-All :
      (Q : Process → Type 0) (list : List Process) (w : W)
      → All Q list
      → All (λ g. IsReal g.name × Q (identity g)) (listed_games procs list w).0
  listed_games-All Q list w all =
      All-identity (λ pe. IsReal pe.exe × Q pe) _
        (subst (All (λ pe. IsReal pe.exe × Q pe)) (sym (listed_games-known list w))
          (known_among-All Q list all))

  games_of-All :
      (Q : Process → Type 0) (list : Option (List Process)) (w : W)
      → ((l : List Process) → list ≡ some l → All Q l)
      → All (λ g. IsReal g.name × Q (identity g)) (games_of procs list w).0
  unfolding games_of
  games_of-All Q none w all = tt
  games_of-All Q (some list) w all = listed_games-All Q list w (all list refl)

  -- FindActiveGames finds the processes of the snapshot whose names in small letters are
  -- among those of the 17 known games, which are written out, in the order of the snapshot,
  -- and none if there is no snapshot.
  pub find_active_games-known :
      (api : SystemApi W) (w : W)
      → map identity (find_active_games procs api w).0
        ≡ elim (api.snapshot w).0 [ none ↦ [] | some list ↦ known_among list ]
  unfolding find_active_games games_of
  find_active_games-known api w = elim (Option-cases (api.snapshot w).0) [
    | inl failed ↦ rw failed refl
    | inr (list, there) ↦ rw there (listed_games-known list (api.snapshot w).1)
  ]

module _ {W : Type 0} {P : W → Type 0} (procs : ProcessApi W) (mask : State W ℕ) (api : SystemApi W)
    (calls : BoostCalls P procs mask api)
    (queries : (pe : Process)
      → Listed P api pe
      → IsReal pe.exe
      → Keeps P (procs.open_process query_information pe.pid))
    (classes : (h : ℕ) → Keeps P (procs.get_priority_class h))
    (affinities : (h : ℕ) → Keeps P (procs.get_process_affinity_mask h)) where
  game_info-Keeps : (pe : Process) (proc : Option ℕ) → Keeps P (game_info procs pe proc)
  unfolding game_info
  game_info-Keeps pe none = search keeps_rules
  game_info-Keeps pe (some proc) = search (keeps_rules, classes, affinities, calls.closes)

  listed_games-Keeps :
      (list : List Process) → All (Listed P api) list → Keeps P (listed_games procs list)
  unfolding listed_games read_game
  listed_games-Keeps [] seen = search keeps_rules
  listed_games-Keeps (pe ∷ list) seen = record {
    at = λ w h. elim (Bool-cases (is_known_game get_known_game_executables pe.exe)) [
      | inr other ↦ rw other ((listed_games-Keeps list seen.1).at w h)
      | inl game ↦ rw game (
          let real = is_known_game-IsReal get_known_game_executables pe.exe known-IsReal game in
          let (proc, w1) = procs.open_process 0x400 pe.pid w in
          (listed_games-Keeps list seen.1).at _
            ((game_info-Keeps pe proc).at w1 ((queries pe seen.0 real).at w h)))
    ];
  }

  games_of-Keeps :
      (list : Option (List Process))
      → ((l : List Process) → list ≡ some l → All (Listed P api) l)
      → Keeps P (games_of procs list)
  unfolding games_of
  games_of-Keeps none seen = search keeps_rules
  games_of-Keeps (some list) seen = listed_games-Keeps list (seen list refl)

  abbrev MayBoost : RunningProcessInfo → Type 0
  MayBoost g = IsReal g.name × Listed P api (identity g)

  boost_game-Keeps : (g : RunningProcessInfo) → MayBoost g → Keeps P (boost_game procs mask g)
  unfolding boost_game
  boost_game-Keeps g (real, seen) = record {
    at = λ w h. (boost_process-Keeps procs mask api calls (identity g) true seen real).at w h;
  }

  boost_games-Keeps :
      (games : List RunningProcessInfo)
      → All MayBoost games
      → Keeps P (boost_games procs mask games)
  unfolding boost_games
  boost_games-Keeps [] real = search keeps_rules
  boost_games-Keeps (g ∷ games) real = record {
    at = λ w h. (count_each-Keeps _ boost_game-Keeps (g ∷ games) real).at w h;
  }

  boost_healed-Keeps :
      (healed : Option OperationResult) → Keeps P (boost_healed procs mask api healed)
  unfolding boost_healed find_active_games
  boost_healed-Keeps none = search keeps_rules
  boost_healed-Keeps (some healed) = record {
    at = λ w h.
        let (list, w1) = api.snapshot w in
        let seen : (l : List Process) → (api.snapshot w).0 ≡ some l → All (Listed P api) l =
          λ l e. snapshot-AllListed P api w l h e in
        (boost_games-Keeps (games_of procs list w1).0
            (games_of-All procs (Listed P api) list w1 seen)).at
          _ ((games_of-Keeps list seen).at w1 (calls.snapshots.at w h));
  }

  -- Whatever property of the world the healing of Steam keeps, the snapshot, the calls on an
  -- open process, and the opening of processes that a snapshot lists under a name that the
  -- VPN guard does not protect, AutoBoostAllActiveGames keeps: it opens no protected process,
  -- since no known game is one.
  pub auto_boost_all_active_games-Keeps :
      (store : RegistryStore W) (heal : HealApi W) (regex : RegexLib)
      → Keeps P (heal_steam_and_games store procs heal regex api false)
      → Keeps P (auto_boost_all_active_games procs mask store heal regex api)
  unfolding auto_boost_all_active_games
  auto_boost_all_active_games-Keeps store heal regex heals =
      search (keeps_rules, heals, boost_healed-Keeps)
