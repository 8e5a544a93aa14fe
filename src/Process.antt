-- ===== src/Process.antt =====
-- src/process_optimizer.cpp: priority and affinity of game processes.
pub mod Shield
pub mod Games
use Prim.Native.String.{◌++◌}
use disping.Common.{
  ℕ, ◌+◌, String, Bool, true, false, not, ◌&&◌, Option, none, some, List, [], ◌∷◌, OperationResult,
  result, ltb, if◌then◌else◌,
}
use disping.Common.State.{State, ◌>>=◌, ◌>>◌, pure, count_each}
use disping.Common.Text.{to_string}
use disping.Windows.Registry.{same_text}
use disping.Windows.System.{Process, SystemApi}
use disping.Windows.Processes.{ProcessApi}
use disping.Vpn.{is_process_protected}

-- `mask` stands for GetPhysicalCoresAffinityMask, the mask of the hardware profile.
module _ {W : Type 0} (procs : ProcessApi W) (mask : State W ℕ) where
  -- PROCESS_SET_INFORMATION and PROCESS_QUERY_INFORMATION
  abbrev pub boost_access : ℕ
  boost_access = 0x600

  abbrev high_priority_class : ℕ
  high_priority_class = 0x80

  -- The affinity, if it is wanted; TRUE otherwise.
  unfoldable pub pin : ℕ → Bool → State W Bool
  pin handle false = pure true
  pin handle true = do cores ← mask; procs.set_process_affinity_mask handle cores

  unfoldable pub boost_opened : ℕ → Bool → Option ℕ → State W OperationResult
  boost_opened pid pinned none = pure (
      result false
        ("Failed to open process PID " ++ to_string pid ++ " (access denied or terminated)."))
  boost_opened pid pinned (some handle) = do
    prio_success ← procs.set_priority_class handle high_priority_class
    aff_success ← pin handle pinned
    procs.close_handle handle
    pure (
        if prio_success
        then result true (
            "Boosted PID "
            ++ to_string pid
            ++ " to HIGH_PRIORITY_CLASS"
            ++ (if aff_success && pinned then " and pinned to isolated gaming cores." else "."))
        else result false "Failed to elevate process priority.")

  unfoldable pub boost_process : ℕ → Bool → State W OperationResult
  boost_process pid pinned = do
    handle ← procs.open_process boost_access pid
    boost_opened pid pinned handle

  -- One process of the snapshot: names are compared in lower case.
  unfoldable pub boost_if_named : String → Bool → Process → State W Bool
  boost_if_named process_name pinned pe =
      if same_text pe.exe process_name
      then (do r ← boost_process pe.pid pinned; pure r.success)
      else pure false

  unfoldable pub boost_listed : String → Bool → Option (List Process) → State W OperationResult
  boost_listed process_name pinned none = pure (result false "Failed to snapshot processes.")
  boost_listed process_name pinned (some list) = do
    boosted ← count_each (boost_if_named process_name pinned) list
    pure (
        if ltb 0 boosted
        then result true
            ("Boosted " ++ to_string boosted ++ " instance(s) of [" ++ process_name ++ "].")
        else result false ("Process [" ++ process_name ++ "] was not found running."))

  unfoldable pub boost_process_by_name : SystemApi W → String → Bool → State W OperationResult
  boost_process_by_name api process_name pinned =
      if is_process_protected process_name
      then pure (
          result false (
            "[VPN SHIELD] Process [" ++ process_name
            ++ "] is a protected VPN / DPI bypass service. Modified affinity skipped for stability."))
      else do list ← api.snapshot; boost_listed process_name pinned list
