-- ===== src/Network/Applied.antt =====
-- src/network_optimizer.cpp: AreTweaksApplied after ApplyAllNetworkTweaks.
use disping.Common.{String, ◌≡◌, refl, true, false, some, List, [], ◌∷◌, All, arith}
use disping.Common.State.Keeps.{Keeps, keeps_rules}
use disping.Windows.Registry.{Place, place, alias, same_text, alias_refl, dword, hklm}
use disping.Windows.System.{SystemApi}
use disping.Store.{RegistryStore}
use disping.Store.Keeps.{Holds, holds_rules}
use disping.Network.{
  profile_key, tcp_key, write_profile, optimize_tcp_no_delay_and_ack_frequency,
  optimize_network_throttling_and_responsiveness, optimize_tcp_parameters, are_tweaks_applied,
  netsh_commands, run_commands, choose_congestion_provider, optimize_tcp_global_netsh,
  apply_all_network_tweaks,
}

abbrev pub throttling : Place
throttling = place hklm profile_key "NetworkThrottlingIndex"

-- The netsh commands that set up the TCP stack, and those that choose the congestion provider.
abbrev pub stack_commands : List String
stack_commands =
    "netsh int tcp set global autotuninglevel=normal"
    ∷ "netsh int tcp set global ecncapability=disabled"
    ∷ "netsh int tcp set global timestamps=disabled" ∷ "netsh int tcp set global rss=enabled"
    ∷ "netsh int tcp set global rsc=disabled" ∷ "netsh int tcp set heuristics disabled"
    ∷ "netsh int ip set global taskoffload=enabled" ∷ []

abbrev pub provider_commands : List String
provider_commands =
    "netsh int tcp set supplemental template=internet congestionprovider=bbr"
    ∷ "netsh int tcp set supplemental template=internet congestionprovider=cubic"
    ∷ "netsh int tcp set supplemental template=internet congestionprovider=ctcp" ∷ []

module _ {W : Type 0} (store : RegistryStore W) where
  abbrev Disabled : W → Type 0
  Disabled = Holds store throttling (some (dword 0xFFFF_FFFF))

  other_name :
      (alias (place hklm profile_key "SystemResponsiveness") throttling ≡ false)
      × (alias (place hklm profile_key "NoLazyMode") throttling ≡ false)
  unfolding alias
  other_name = (refl, refl)

  other_key : (n : String) → alias (place hklm tcp_key n) throttling ≡ false
  unfolding alias same_text
  other_key n = ground arith

  write_profile-Disabled :
      (w : W) → (write_profile store w).0 ≡ true → Disabled (write_profile store w).1
  unfolding write_profile
  write_profile-Disabled w ok =
      let (b1, w1) = store.set_dword hklm profile_key "NetworkThrottlingIndex" 0xFFFF_FFFF w in
      let w2 = (store.set_dword hklm profile_key "SystemResponsiveness" 0 w1).1 in
      ground (
        arith,
        store.set_dword-values hklm profile_key "NetworkThrottlingIndex" 0xFFFF_FFFF w throttling,
        alias_refl throttling,
        store.set_dword-values hklm profile_key "SystemResponsiveness" 0 w1 throttling,
        store.set_dword-values hklm profile_key "NoLazyMode" 1 w2 throttling,
        other_name.0,
        other_name.1,
      )

  throttling-Disabled :
      (w : W)
      → (optimize_network_throttling_and_responsiveness store w).0.success ≡ true
      → Disabled (optimize_network_throttling_and_responsiveness store w).1
  unfolding optimize_network_throttling_and_responsiveness
  throttling-Disabled w ok =
      let (admin, w1) = store.is_running_as_admin w in ground (arith, write_profile-Disabled w1)

  optimize_tcp_parameters-Disabled : Keeps Disabled (optimize_tcp_parameters store)
  unfolding optimize_tcp_parameters
  optimize_tcp_parameters-Disabled = search (holds_rules, other_key) depth 20

  -- The command leaves the throttling value alone.
  abbrev pub Leaves : SystemApi W → String → Type 0
  Leaves api command =
      (w : W) → store.value (api.run_command command w).1 throttling ≡ store.value w throttling

  module _ (api : SystemApi W) (quiet : All (Leaves api) stack_commands)
      (quiet_provider : All (Leaves api) provider_commands) where
    run_command-Disabled :
        (command : String) → Leaves api command → Keeps Disabled (api.run_command command)
    run_command-Disabled command leaves = record { at = λ w h. rw (leaves w) h }

    run_commands-Disabled :
        (list : List String) → All (Leaves api) list → Keeps Disabled (run_commands api list)
    unfolding run_commands
    run_commands-Disabled [] leaves = search keeps_rules
    run_commands-Disabled (cmd ∷ rest) leaves = record {
      at = λ w h.
          (run_commands-Disabled rest leaves.1).at (api.run_command cmd w).1
            ((run_command-Disabled cmd leaves.0).at w h);
    }

    choose-Disabled : Keeps Disabled (choose_congestion_provider api)
    unfolding choose_congestion_provider
    choose-Disabled =
        search
          (
            keeps_rules, run_command-Disabled, quiet_provider.0, quiet_provider.1.0,
            quiet_provider.1.1.0,
          )
          depth 15

    netsh-Disabled : Keeps Disabled (optimize_tcp_global_netsh api)
    unfolding optimize_tcp_global_netsh
    netsh-Disabled = record {
      at = λ w h.
          choose-Disabled.at (run_commands api netsh_commands w).1
            ((run_commands-Disabled stack_commands quiet).at w h);
    }

    -- After a run over all tweaks that reports success the check finds the tweaks applied, if
    -- each of the netsh commands of OptimizeTcpGlobalNetsh, which are written out, leaves the
    -- throttling value alone and its key can be read.
    pub are_tweaks_applied-apply_all_network_tweaks :
        (w : W)
        → (apply_all_network_tweaks api store w).0.success ≡ true
        → store.can_read (apply_all_network_tweaks api store w).1 hklm profile_key ≡ true
        → (are_tweaks_applied store (apply_all_network_tweaks api store w).1).0 ≡ true
    unfolding apply_all_network_tweaks are_tweaks_applied
    are_tweaks_applied-apply_all_network_tweaks w ok readable =
        let (r1, w1) = optimize_tcp_no_delay_and_ack_frequency store w in
        let (r2, w2) = optimize_network_throttling_and_responsiveness store w1 in
        let (r3, w3) = optimize_tcp_parameters store w2 in
        let w4 = (optimize_tcp_global_netsh api w3).1 in
        let h2 = throttling-Disabled w1 (ground arith) in
        let h4 = netsh-Disabled.at w3 (optimize_tcp_parameters-Disabled.at w2 h2) in
        rw
          (store.get_dword-found hklm profile_key "NetworkThrottlingIndex" w4 0xFFFF_FFFF readable
            h4)
          refl
