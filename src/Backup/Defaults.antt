-- ===== src/Backup/Defaults.antt =====
-- RestoreFactoryDefaults of src/backup_manager.cpp and the throttling value.
use disping.Common.{ℕ, String, ◌≡◌, refl, true, false, some, List, [], ◌∷◌, All, arith}
use disping.Common.Text.{codes, has_prefix}
use disping.Common.State.Keeps.{Keeps, keeps_rules, each-Keeps}
use disping.Windows.Registry.{place, alias, alias_refl, dword, hklm}
use disping.Windows.System.{SystemApi}
use disping.Windows.Services.{TimerApi}
use disping.Store.{RegistryStore}
use disping.Store.Keeps.{Holds, enumerate-Holds, holds_rules}
use disping.Network.{profile_key, interfaces_key, are_tweaks_applied}
use disping.Network.Applied.{throttling}
use disping.Latency.{new_optimizer, restore_timer_resolution}
use disping.Qos.{remove_gaming_qos_policies}
use disping.Qos.Policies.{remove_gaming_qos_policies-Keeps}
use Prim.Native.String.{◌++◌}
use disping.Backup.{
  restore_commands, reset_stack, reset_interface, run_restore_commands, restore_factory_defaults,
}

-- The commands that restore the defaults of the TCP stack.
abbrev pub default_commands : List String
default_commands =
    "netsh int tcp set global autotuninglevel=normal > nul 2>&1"
    ∷ "netsh int tcp set global congestionprovider=default > nul 2>&1"
    ∷ "netsh int tcp set global ecncapability=default > nul 2>&1"
    ∷ "netsh int tcp set global timestamps=allowed > nul 2>&1"
    ∷ "netsh int tcp set global rss=enabled > nul 2>&1"
    ∷ "netsh int tcp set global rsc=enabled > nul 2>&1"
    ∷ "netsh int tcp set heuristics enabled > nul 2>&1" ∷ []

-- A subkey of the QoS policies.
abbrev pub policy_key : String → String
policy_key sk = "SOFTWARE\\Policies\\Microsoft\\Windows\\QoS" ++ "\\" ++ sk

-- The command leaves the throttling value alone.
abbrev pub Leaves : {W : Type 0} → RegistryStore W → SystemApi W → String → Type 0
Leaves {W} store api command =
    (w : W) → store.value (api.system command w).1 throttling ≡ store.value w throttling

module _ {W : Type 0} (store : RegistryStore W) (api : SystemApi W) (timer : TimerApi W)
    (show_ms : ℕ → String) (quiet : All (Leaves store api) default_commands)
    (quiet_delete : (sk : String) (w : W)
      → has_prefix (codes "DisPing_QoS_") (codes sk) ≡ true
      → store.value (api.reg_delete_key (policy_key sk) w).1 throttling
        ≡ store.value w throttling) where
  abbrev Reset : W → Type 0
  Reset = Holds store throttling (some (dword 10))

  other_names :
      (k : String)
      → (alias (place hklm k "TcpAckFrequency") throttling ≡ false)
        × (alias (place hklm k "TCPNoDelay") throttling ≡ false)
        × (alias (place hklm k "TcpDelAckTicks") throttling ≡ false)
  unfolding alias
  other_names k = (refl, refl, refl)

  responsiveness : alias (place hklm profile_key "SystemResponsiveness") throttling ≡ false
  unfolding alias
  responsiveness = refl

  reset_interface-Reset :
      (guid : String) → Keeps Reset (reset_interface store api timer show_ms guid)
  unfolding reset_interface
  reset_interface-Reset guid =
      let (n1, n2, n3) = other_names (interfaces_key ++ "\\" ++ guid) in search holds_rules depth 12

  run_restore_commands-Reset :
      (list : List String)
      → All (Leaves store api) list
      → Keeps Reset (run_restore_commands store api timer show_ms list)
  unfolding run_restore_commands
  run_restore_commands-Reset [] leaves = search keeps_rules
  run_restore_commands-Reset (command ∷ rest) leaves = record {
    at = λ w h.
        (run_restore_commands-Reset rest leaves.1).at (api.system command w).1 (rw (leaves.0 w) h);
  }

  remove-Reset : Keeps Reset (remove_gaming_qos_policies store api)
  remove-Reset =
      remove_gaming_qos_policies-Keeps store api Reset
        (enumerate-Holds store throttling (some (dword 10)) hklm)
        λ sk ours. record { at = λ w h. rw (quiet_delete sk w ours) h }

  timer-Reset : Keeps Reset (restore_timer_resolution timer show_ms new_optimizer)
  unfolding restore_timer_resolution
  timer-Reset = record { at = λ w h. h }

  run_defaults-Reset : Keeps Reset (run_restore_commands store api timer show_ms restore_commands)
  run_defaults-Reset = run_restore_commands-Reset default_commands quiet

  reset_stack-Reset : Keeps Reset (reset_stack store api timer show_ms)
  unfolding reset_stack
  reset_stack-Reset =
      search
        (
          holds_rules, each-Keeps, reset_interface-Reset, remove-Reset, run_defaults-Reset,
          timer-Reset,
        )
        depth 15

  -- After a restore by an administrator whose write of the throttling value succeeds
  -- AreTweaksApplied says no, if each of the restoring commands, which are written out, and
  -- the deletion of the subkeys DisPing_QoS_... of the QoS policies leave that value alone
  -- and its key can be read.
  pub are_tweaks_applied-restore_factory_defaults :
      (w : W)
      → (store.is_running_as_admin w).0 ≡ true
      → (store.set_dword hklm profile_key "NetworkThrottlingIndex" 10
          (store.is_running_as_admin w).1).0
        ≡ true
      → store.can_read (restore_factory_defaults store api timer show_ms w).1 hklm profile_key
        ≡ true
      → (are_tweaks_applied store (restore_factory_defaults store api timer show_ms w).1).0 ≡ false
  unfolding restore_factory_defaults are_tweaks_applied
  are_tweaks_applied-restore_factory_defaults w admin ok readable =
      let w1 = (store.is_running_as_admin w).1 in
      let w2 = (store.set_dword hklm profile_key "NetworkThrottlingIndex" 10 w1).1 in
      let (b3, w3) = store.set_dword hklm profile_key "SystemResponsiveness" 20 w2 in
      let h3 : Reset w3 = ground (
        arith,
        store.set_dword-values hklm profile_key "NetworkThrottlingIndex" 10 w1 throttling,
        alias_refl throttling,
        store.set_dword-values hklm profile_key "SystemResponsiveness" 20 w2 throttling,
        responsiveness,
      ) in
      let w4 = (restore_factory_defaults store api timer show_ms w).1 in
      let h4 : Reset w4 = rw admin (reset_stack-Reset.at w3 h3) in
      rw (store.get_dword-found hklm profile_key "NetworkThrottlingIndex" w4 10 readable h4) refl
