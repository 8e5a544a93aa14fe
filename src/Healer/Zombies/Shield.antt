-- ===== src/Healer/Zombies/Shield.antt =====
-- The processes that TerminateHungSteamZombies of src/platform_healer.cpp ends.
use disping.Common.{
  ℕ, ◌+◌, ◌<◌, String, ◌≡◌, refl, Bool, true, false, not, ◌&&◌, Option, none, some, List, [], ◌∷◌,
  All, arith, ◌==◌, if◌then◌else◌, ◌⊎◌, inl, inr, Bool-cases, subst,
}
use disping.Common.State.{State, pure}
use disping.Common.State.Keeps.{Keeps, keeps_rules, bind-Keeps_of, count_each-Keeps}
use disping.Windows.Registry.{hkcu}
use disping.Windows.System.{Process, SystemApi}
use disping.Windows.Processes.{ProcessApi}
use disping.Windows.Snapshot.{Listed, snapshot-AllListed}
use disping.Common.Text.{codes, lower, same, same-eq}
use disping.Windows.Healing.{HealApi}
use disping.Store.{RegistryStore}
use disping.Healer.Steam.{active_process_key, or_zero}
use disping.Healer.Zombies.{
  is_steam, is_hung, check_age, is_to_kill, pids_to_kill, kill, terminate_listed,
  terminate_hung_steam_zombies,
}

-- A test, then a part that says yes.
then_true :
    {W : Type 0} (b : Bool) (m : State W Bool) (w : W)
    → ((if b then m else pure false) w).0 ≡ true
    → (b ≡ true) × ((m w).0 ≡ true)
then_true true m w h = (refl, h)
then_true false m w h = absurd (ground arith)

else_true :
    {W : Type 0} (b : Bool) (m : State W Bool) (w : W)
    → ((if b then pure false else m) w).0 ≡ true
    → (m w).0 ≡ true
else_true true m w h = absurd (ground arith)
else_true false m w h = h

All-if :
    (P : ℕ → Type 0) (b : Bool) (x : ℕ) (xs : List ℕ)
    → (b ≡ true → P x)
    → All P xs
    → All P (if b then x ∷ xs else xs)
All-if P true x xs h all = (h refl, all)
All-if P false x xs h all = all

-- The names of Steam's processes.
pub SteamName : String → Type 0
SteamName exe =
    (lower (codes exe) ≡ codes "steam.exe") ⊎ (lower (codes exe) ≡ codes "steamwebhelper.exe")

is_steam-SteamName : (exe : String) → is_steam exe ≡ true → SteamName exe
unfolding is_steam SteamName
is_steam-SteamName exe h = elim (Bool-cases (same (lower (codes exe)) (codes "steam.exe"))) [
  | inl yes' ↦ inl (same-eq (lower (codes exe)) (codes "steam.exe") yes')
  | inr no' ↦ inr (same-eq (lower (codes exe)) (codes "steamwebhelper.exe") (rw no' at h))
]

is_hung_old :
    (active_pid now : ℕ) (create : Option ℕ)
    → is_hung active_pid now create ≡ true
    → (c : ℕ) × (create ≡ some c) × (c + 600000000 < now) × (active_pid ≡ 0)
unfolding is_hung
is_hung_old active_pid now none h = absurd (ground arith)
is_hung_old active_pid now (some c) h = (c, refl, ground arith, ground arith)

module _ {W : Type 0} (P : W → Type 0) (procs : ProcessApi W) (heal : HealApi W)
    (store : RegistryStore W) (api : SystemApi W) where
  -- A clock reading in a world with the property, and a reading of the registry that names no active session.
  pub record Now (now : ℕ) : Type 0 where
    pub world : W
    pub holds : P world
    pub read : (heal.get_system_time_as_file_time world).0 ≡ now

  pub record NoSession : Type 0 where
    pub world : W
    pub holds : P world
    pub read : or_zero (store.get_dword hkcu active_process_key "pid" world).0 ≡ 0

  -- A process that a snapshot lists under a name of Steam's, and whose handle GetProcessTimes shows to have been created more
  -- than 60 seconds, in units of 100 ns, before the clock reading, while the registry names no active session.
  pub record Hung (pe : Process) : Type 0 where
    pub listed : Listed P api pe
    pub named : SteamName pe.exe
    pub idle : NoSession
    pub now : ℕ
    pub clock : Now now
    pub world : W
    pub holds : P world
    pub handle : ℕ
    pub opened : (procs.open_process 0x1000 pe.pid world).0 ≡ some handle
    pub create : ℕ
    pub times :
        (heal.get_process_times handle (procs.open_process 0x1000 pe.pid world).1).0 ≡ some create
    pub old : create + 600000000 < now

  abbrev HungPid : ℕ → Type 0
  HungPid pid = (pe : Process) × (pe.pid ≡ pid) × Hung pe

  check_age_old :
      (active_pid now : ℕ) (proc : Option ℕ) (w : W)
      → (check_age procs heal active_pid now proc w).0 ≡ true
      → (handle c : ℕ) × (proc ≡ some handle)
        × ((heal.get_process_times handle w).0 ≡ some c)
        × (c + 600000000 < now)
        × (active_pid ≡ 0)
  unfolding check_age
  check_age_old active_pid now none w h = absurd (ground arith)
  check_age_old active_pid now (some proc) w h =
      let (c, times, old, idle) = is_hung_old active_pid now (heal.get_process_times proc w).0 h in
      (proc, c, refl, times, old, idle)

  is_to_kill-Hung :
      (active_pid now : ℕ) (pe : Process) (w : W)
      → P w
      → Now now
      → (active_pid ≡ 0 → NoSession)
      → Listed P api pe
      → (is_to_kill procs heal active_pid now pe w).0 ≡ true
      → Hung pe
  unfolding is_to_kill
  is_to_kill-Hung active_pid now pe w holds clock idle listed h =
      let (named, asked) = then_true (is_steam pe.exe) _ w h in
      let (proc, w') = procs.open_process 0x1000 pe.pid w in
      let (handle, c, opened, times, old, zero') =
        check_age_old active_pid now proc w'
          (else_true (not (active_pid == 0) && pe.pid == active_pid) _ w asked) in
      record {
        listed = listed;
        named = is_steam-SteamName pe.exe named;
        idle = idle zero';
        now = now;
        clock = clock;
        world = w;
        holds = holds;
        handle = handle;
        opened = opened;
        create = c;
        times = times;
        old = old;
      }

-- What a property of the world has to survive: the questions, and the ending of hung processes.
pub record ZombieCalls {W : Type 0} (P : W → Type 0) (procs : ProcessApi W) (heal : HealApi W)
    (store : RegistryStore W) (api : SystemApi W) : Type 0 where
  pub asks : Keeps P (store.get_dword hkcu active_process_key "pid")
  pub snapshots : Keeps P api.snapshot
  pub clocks : Keeps P heal.get_system_time_as_file_time
  pub opens : (pid : ℕ) → Keeps P (procs.open_process 0x1000 pid)
  pub times : (h : ℕ) → Keeps P (heal.get_process_times h)
  pub closes : (h : ℕ) → Keeps P (procs.close_handle h)
  pub kills : (pe : Process) → Hung P procs heal store api pe → Keeps P (kill procs heal pe.pid)

module _ {W : Type 0} {P : W → Type 0} (procs : ProcessApi W) (heal : HealApi W)
    (store : RegistryStore W) (api : SystemApi W) where
  module _ (calls : ZombieCalls P procs heal store api) where
    open calls use {asks, snapshots, clocks, opens, times, closes, kills}

    check_age-Keeps :
        (active_pid now : ℕ) (proc : Option ℕ) → Keeps P (check_age procs heal active_pid now proc)
    unfolding check_age
    check_age-Keeps active_pid now none = search keeps_rules
    check_age-Keeps active_pid now (some proc) = search (keeps_rules, times, closes)

    is_to_kill-Keeps :
        (active_pid now : ℕ) (pe : Process) → Keeps P (is_to_kill procs heal active_pid now pe)
    unfolding is_to_kill
    is_to_kill-Keeps active_pid now pe = search (keeps_rules, opens, check_age-Keeps)

    pids_to_kill-Keeps :
        (active_pid now : ℕ) (list : List Process)
        → Keeps P (pids_to_kill procs heal active_pid now list)
    unfolding pids_to_kill
    pids_to_kill-Keeps active_pid now [] = search keeps_rules
    pids_to_kill-Keeps active_pid now (pe ∷ list) = record {
      at = λ w h.
          (pids_to_kill-Keeps active_pid now list).at (is_to_kill procs heal active_pid now pe w).1
            ((is_to_kill-Keeps active_pid now pe).at w h);
    }

    -- Every process that is going to be ended is a hung one.
    pids_to_kill-Hung :
        (active_pid now : ℕ) (list : List Process) (w : W)
        → P w
        → Now P procs heal store api now
        → (active_pid ≡ 0 → NoSession P procs heal store api)
        → All (Listed P api) list
        → All (HungPid P procs heal store api) (pids_to_kill procs heal active_pid now list w).0
    unfolding pids_to_kill
    pids_to_kill-Hung active_pid now [] w h clock idle seen = tt
    pids_to_kill-Hung active_pid now (pe ∷ list) w h clock idle seen =
        let (hung, w') = is_to_kill procs heal active_pid now pe w in
        All-if _ hung pe.pid _
          (λ on. (
            pe,
            refl,
            is_to_kill-Hung P procs heal store api active_pid now pe w h clock idle seen.0 on,
          ))
          (pids_to_kill-Hung active_pid now list w' ((is_to_kill-Keeps active_pid now pe).at w h)
            clock idle seen.1)

    kill_listed-Keeps :
        (pid : ℕ) → HungPid P procs heal store api pid → Keeps P (kill procs heal pid)
    kill_listed-Keeps pid (pe, e, hung) = subst (λ n. Keeps P (kill procs heal n)) e (kills pe hung)

    terminate_listed-Keeps :
        (active_pid : ℕ) (list : Option (List Process))
        → (active_pid ≡ 0 → NoSession P procs heal store api)
        → ((l : List Process) → list ≡ some l → All (Listed P api) l)
        → Keeps P (terminate_listed procs heal active_pid list)
    unfolding terminate_listed
    terminate_listed-Keeps active_pid none idle seen = search keeps_rules
    terminate_listed-Keeps active_pid (some list) idle seen =
        bind-Keeps_of (Now P procs heal store api) clocks
          (λ w h. record { world = w; holds = h; read = refl })
          λ now clock.
            bind-Keeps_of (All (HungPid P procs heal store api))
              (pids_to_kill-Keeps active_pid now list)
              (λ w h. pids_to_kill-Hung active_pid now list w h clock idle (seen list refl))
              λ pids hung. count_each-Keeps _ kill_listed-Keeps pids hung

    -- Whatever property of the world the questions keep, and the ending of hung processes of
    -- Steam's, TerminateHungSteamZombies keeps: it ends no other process. A hung process is
    -- one that a snapshot lists as steam.exe or steamwebhelper.exe in any case, whose own
    -- handle shows a creation more than 60 seconds before a reading of the clock, while the
    -- registry names no active session.
    pub terminate_hung_steam_zombies-Keeps :
        Keeps P (terminate_hung_steam_zombies procs heal store api)
    unfolding terminate_hung_steam_zombies
    terminate_hung_steam_zombies-Keeps = record {
      at = λ w h.
          let (active_pid, w1) = store.get_dword hkcu active_process_key "pid" w in
          let h1 = asks.at w h in
          (terminate_listed-Keeps (or_zero active_pid) (api.snapshot w1).0
              (λ zero'. record { world = w; holds = h; read = zero' })
              λ l e. snapshot-AllListed P api w1 l h1 e).at
            (api.snapshot w1).1 (snapshots.at w1 h1);
    }
