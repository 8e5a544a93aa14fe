-- ===== src/Qos/Policies.antt =====
-- src/qos_optimizer.cpp: what the setup leaves behind, and what the removal deletes.
use Prim.Native.String.{◌++◌}
use disping.Common.{String, ◌≡◌, refl, true, false, some, List, arith, Bool-cases, inl, inr}
use disping.Common.State.{count_each}
use disping.Common.State.Keeps.{Keeps, keeps_rules, each-Keeps}
use disping.Common.Text.{codes, has_prefix}
use disping.Windows.Registry.{Place, place, alias, same_text, alias_refl, dword, hklm}
use disping.Windows.System.{SystemApi}
use disping.Store.{RegistryStore}
use disping.Store.Keeps.{Holds, set_string-Holds}
use disping.Qos.{
  qos_key, tcp_key, qos_root, policy_prefix, chosen, write_tos, enable_user_tos, write_policy,
  setup_gaming_qos_policies, is_qos_enabled, remove_policy, remove_gaming_qos_policies,
}

abbrev marking : Place
marking = place hklm tcp_key "DisableUserTOSSetting"

module _ {W : Type 0} (store : RegistryStore W) where
  abbrev Marked : W → Type 0
  Marked = Holds store marking (some (dword 0))

  other_nla : alias (place hklm qos_key "Do not use NLA") marking ≡ false
  unfolding alias
  other_nla = refl

  enable_user_tos-Marked :
      (w : W) → (enable_user_tos store w).0.success ≡ true → Marked (enable_user_tos store w).1
  unfolding enable_user_tos write_tos
  enable_user_tos-Marked w ok =
      let (admin, w1) = store.is_running_as_admin w in
      let w2 = (store.set_dword hklm tcp_key "DisableUserTOSSetting" 0 w1).1 in
      ground (
        arith,
        store.set_dword-values hklm tcp_key "DisableUserTOSSetting" 0 w1 marking,
        alias_refl marking,
        store.set_string-values hklm qos_key "Do not use NLA" "1" w2 marking,
        other_nla,
      )

  -- A value of a policy is another place, since its name is another one.
  policy_write-Marked :
      (k n v : String)
      → same_text n "DisableUserTOSSetting" ≡ false
      → Keeps Marked (store.set_string hklm k n v)
  unfolding alias
  policy_write-Marked k n v other =
      set_string-Holds store marking (some (dword 0)) hklm k n v (rw other refl)

  names :
      (same_text "Version" "DisableUserTOSSetting" ≡ false)
      × (same_text "Application Name" "DisableUserTOSSetting" ≡ false)
      × (same_text "Protocol" "DisableUserTOSSetting" ≡ false)
      × (same_text "Local Port" "DisableUserTOSSetting" ≡ false)
      × (same_text "Local IP" "DisableUserTOSSetting" ≡ false)
      × (same_text "Local IP Prefix Length" "DisableUserTOSSetting" ≡ false)
      × (same_text "Remote Port" "DisableUserTOSSetting" ≡ false)
      × (same_text "Remote IP" "DisableUserTOSSetting" ≡ false)
      × (same_text "Remote IP Prefix Length" "DisableUserTOSSetting" ≡ false)
      × (same_text "DSCP Value" "DisableUserTOSSetting" ≡ false)
      × (same_text "Throttle Rate" "DisableUserTOSSetting" ≡ false)
  unfolding same_text
  names = (refl, refl, refl, refl, refl, refl, refl, refl, refl, refl, refl)

  write_policy-Marked : (exe : String) → Keeps Marked (write_policy store exe)
  unfolding write_policy
  write_policy-Marked exe =
      let (n1, n2, n3, n4, n5, n6, n7, n8, n9, n10, n11) = names in
      search (keeps_rules, policy_write-Marked) depth 30

  -- After a setup that reports success IsQoSEnabled finds the marking of packets enabled, if
  -- the key can be read.
  pub is_qos_enabled-setup_gaming_qos_policies :
      (games : List String) (w : W)
      → (setup_gaming_qos_policies store games w).0.success ≡ true
      → store.can_read (setup_gaming_qos_policies store games w).1 hklm tcp_key ≡ true
      → (is_qos_enabled store (setup_gaming_qos_policies store games w).1).0 ≡ true
  unfolding setup_gaming_qos_policies is_qos_enabled
  is_qos_enabled-setup_gaming_qos_policies games w ok readable =
      let (res, w1) = enable_user_tos store w in
      elim (Bool-cases (enable_user_tos store w).0.success) [
        | inr failed ↦ absurd (ground arith)
        | inl enabled ↦
            let w2 = (count_each (write_policy store) (chosen store games) w1).1 in
            let h2 : Marked w2 =
              (each-Keeps write_policy-Marked (chosen store games)).at w1
                (enable_user_tos-Marked w enabled) in
            let readable' : store.can_read w2 hklm tcp_key ≡ true = rw enabled at readable in
            rw enabled (
              rw (store.get_dword-found hklm tcp_key "DisableUserTOSSetting" w2 0 readable' h2)
                refl)
      ]

  -- Whatever property of the world the registry queries keep, and the deletions of subkeys
  -- whose names begin with DisPing_QoS_, the removal keeps: it deletes no other key.
  pub remove_gaming_qos_policies-Keeps :
      (api : SystemApi W) (P : W → Type 0)
      → ((k : String) → Keeps P (store.enumerate_sub_keys hklm k))
      → ((sk : String)
          → has_prefix (codes policy_prefix) (codes sk) ≡ true
          → Keeps P (api.reg_delete_key (qos_root ++ "\\" ++ sk)))
      → Keeps P (remove_gaming_qos_policies store api)
  unfolding remove_gaming_qos_policies remove_policy
  remove_gaming_qos_policies-Keeps api P lists deletes =
      let step : (sk : String) → Keeps P (remove_policy store api sk) = λ sk. record {
        at = λ w h. elim (Bool-cases (has_prefix (codes policy_prefix) (codes sk))) [
          | inl ours ↦ rw ours ((deletes sk ours).at w h)
          | inr other ↦ rw other h
        ];
      } in
      search (keeps_rules, lists, each-Keeps, step)
