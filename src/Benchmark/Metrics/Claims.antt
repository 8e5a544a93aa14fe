-- ===== src/Benchmark/Metrics/Claims.antt =====
-- What the registry holds where MeasureMetrics of src/benchmark_runner.cpp says that it is tuned.
use Prim.Native.String.{◌++◌}
use disping.Common.{
  ℕ, String, ◌≡◌, refl, ◌∙◌, sym, Bool, true, false, ◌||◌, ◌⊎◌, inl, inr, Option, none, some, List,
  [], ◌∷◌, arith,
}
use disping.Windows.Registry.{Root, Place, place, dword, hklm}
use disping.Store.{RegistryStore}
use disping.Network.{interfaces_key, profile_key}
use disping.Latency.{task_games_key}
use disping.Benchmark.Metrics.{equals, RegistryMetrics, check_interfaces, check_registry_tweaks}

module _ {W : Type 0} (store : RegistryStore W) where
  found :
      (n : ℕ) (o : Option ℕ) (r : Root) (k name : String) (w : W)
      → (store.get_dword r k name w).0 ≡ o
      → equals n o ≡ true
      → store.value w (place r k name) ≡ some (dword n)
  found n none r k name w e h = absurd (ground arith)
  found n (some val) r k name w e h =
      let same : val ≡ n = ground arith in rw⁻¹ same (store.get_dword_sound r k name w val e)

  equals-dword :
      (n : ℕ) (r : Root) (k name : String) (w : W)
      → equals n (store.get_dword r k name w).0 ≡ true
      → store.value w (place r k name) ≡ some (dword n)
  equals-dword n r k name w h = found n (store.get_dword r k name w).0 r k name w refl h

  -- An interface holds the value 1 under the name.
  pub record Tuned (name : String) (w : W) : Type 0 where
    pub guid : String
    pub one : store.value w (place hklm (interfaces_key ++ "\\" ++ guid) name) ≡ some (dword 1)

  Tuned-elim :
      (name : String) (w w' : W)
      → ((p : Place) → store.value w' p ≡ store.value w p)
      → Tuned name w'
      → Tuned name w
  Tuned-elim name w w' same t = record { guid = t.guid; one = sym (same _) ∙ t.one }

  or_true : (a b : Bool) → (a || b) ≡ true → (a ≡ true) ⊎ (b ≡ true)
  or_true true b h = inl refl
  or_true false b h = inr h

  check_interfaces-values :
      (guids : List String) (flags : Bool × Bool) (w : W) (p : Place)
      → store.value (check_interfaces store guids flags w).1 p ≡ store.value w p
  unfolding check_interfaces
  check_interfaces-values [] flags w p = refl
  check_interfaces-values (g ∷ guids) (nagle, ack) w p =
      let key = interfaces_key ++ "\\" ++ g in
      let w1 = (store.get_dword hklm key "TCPNoDelay" w).1 in
      let w2 = (store.get_dword hklm key "TcpAckFrequency" w1).1 in
      check_interfaces-values guids _ w2 p
      ∙ (store.get_dword-values hklm key "TcpAckFrequency" w1 p
          ∙ store.get_dword-values hklm key "TCPNoDelay" w p)

  check_interfaces-nagle :
      (guids : List String) (nagle ack : Bool) (w : W)
      → (check_interfaces store guids (nagle, ack) w).0.0 ≡ true
      → (nagle ≡ true) ⊎ Tuned "TCPNoDelay" w
  unfolding check_interfaces
  check_interfaces-nagle [] nagle ack w h = inl h
  check_interfaces-nagle (g ∷ guids) nagle ack w h =
      let key = interfaces_key ++ "\\" ++ g in
      let (nodelay, w1) = store.get_dword hklm key "TCPNoDelay" w in
      let (ackfreq, w2) = store.get_dword hklm key "TcpAckFrequency" w1 in
      elim (check_interfaces-nagle guids (nagle || equals 1 nodelay) (ack || equals 1 ackfreq) w2
        h) [
          | inr later ↦ inr (
              Tuned-elim "TCPNoDelay" w w2
                (λ p.
                  store.get_dword-values hklm key "TcpAckFrequency" w1 p
                  ∙ store.get_dword-values hklm key "TCPNoDelay" w p)
                later)
          | inl now ↦ elim (or_true nagle (equals 1 nodelay) now) [
            | inl before ↦ inl before
            | inr one ↦ inr record { guid = g; one = equals-dword 1 hklm key "TCPNoDelay" w one }
          ]
        ]

  check_interfaces-ack :
      (guids : List String) (nagle ack : Bool) (w : W)
      → (check_interfaces store guids (nagle, ack) w).0.1 ≡ true
      → (ack ≡ true) ⊎ Tuned "TcpAckFrequency" w
  unfolding check_interfaces
  check_interfaces-ack [] nagle ack w h = inl h
  check_interfaces-ack (g ∷ guids) nagle ack w h =
      let key = interfaces_key ++ "\\" ++ g in
      let (nodelay, w1) = store.get_dword hklm key "TCPNoDelay" w in
      let (ackfreq, w2) = store.get_dword hklm key "TcpAckFrequency" w1 in
      let same = λ (p : Place). store.get_dword-values hklm key "TCPNoDelay" w p in
      elim (check_interfaces-ack guids (nagle || equals 1 nodelay) (ack || equals 1 ackfreq) w2 h) [
        | inr later ↦ inr (
            Tuned-elim "TcpAckFrequency" w w2
              (λ p. store.get_dword-values hklm key "TcpAckFrequency" w1 p ∙ same p) later)
        | inl now ↦ elim (or_true ack (equals 1 ackfreq) now) [
          | inl before ↦ inl before
          | inr one ↦ inr (
              Tuned-elim "TcpAckFrequency" w w1 same
                record { guid = g; one = equals-dword 1 hklm key "TcpAckFrequency" w1 one })
        ]
      ]

  -- Each flag is off, or true of the registry.
  pub record Claims (m : RegistryMetrics) (w : W) : Type 0 where
    pub throttling :
        (m.network_throttling_disabled ≡ false)
        ⊎ (store.value w (place hklm profile_key "NetworkThrottlingIndex")
            ≡ some (dword 0xffff_ffff))
    pub responsiveness :
        (m.system_responsiveness_zero ≡ false)
        ⊎ (store.value w (place hklm profile_key "SystemResponsiveness") ≡ some (dword 0))
    pub nagle : (m.nagle_disabled ≡ false) ⊎ Tuned "TCPNoDelay" w
    pub ack : (m.ack_frequency_optimized ≡ false) ⊎ Tuned "TcpAckFrequency" w
    pub mmcss :
        (m.mmcss_boosted ≡ false)
        ⊎ (store.value w (place hklm (task_games_key store) "GPU Priority") ≡ some (dword 8))

  off_or : {T : Type 0} (flag : Bool) → (flag ≡ true → T) → (flag ≡ false) ⊎ T
  off_or true t = inr (t refl)
  off_or false t = inl refl

  set_flag : {T : Type 0} → ◌⊎◌ (◌≡◌ {A = Bool} false true) T → T
  set_flag (inl never) = absurd (cc never)
  set_flag (inr t) = t

  -- The registry checks of MeasureMetrics change no value, and each of the five flags is off
  -- or true of the registry: the throttling index is 0xFFFFFFFF, the responsiveness 0, the
  -- GPU priority 8, and some interface has TCPNoDelay or TcpAckFrequency 1.
  pub check_registry_tweaks-Claims :
      (w : W)
      → Claims (check_registry_tweaks store w).0 w
        × ((p : Place) → store.value (check_registry_tweaks store w).1 p ≡ store.value w p)
  unfolding check_registry_tweaks
  check_registry_tweaks-Claims w =
      let w1 = (store.get_dword hklm profile_key "NetworkThrottlingIndex" w).1 in
      let w2 = (store.get_dword hklm profile_key "SystemResponsiveness" w1).1 in
      let (guids, w3) = store.enumerate_sub_keys hklm interfaces_key w2 in
      let w4 = (check_interfaces store guids (false, false) w3).1 in
      let s1 =
        λ (p : Place). store.get_dword-values hklm profile_key "NetworkThrottlingIndex" w p in
      let s2 =
        λ (p : Place). store.get_dword-values hklm profile_key "SystemResponsiveness" w1 p ∙ s1 p in
      let s3 = λ (p : Place). store.enumerate_sub_keys-values hklm interfaces_key w2 p ∙ s2 p in
      let s4 = λ (p : Place). check_interfaces-values guids (false, false) w3 p ∙ s3 p in
      (
        record {
          throttling =
              off_or _ (equals-dword 0xffff_ffff hklm profile_key "NetworkThrottlingIndex" w);
          responsiveness =
              off_or _
                λ h. sym (s1 _) ∙ equals-dword 0 hklm profile_key "SystemResponsiveness" w1 h;
          nagle = off_or _ λ h.
              Tuned-elim "TCPNoDelay" w w3 s3
                (set_flag (check_interfaces-nagle guids false false w3 h));
          ack = off_or _ λ h.
              Tuned-elim "TcpAckFrequency" w w3 s3
                (set_flag (check_interfaces-ack guids false false w3 h));
          mmcss =
              off_or _
                λ h. sym (s4 _) ∙ equals-dword 8 hklm (task_games_key store) "GPU Priority" w4 h;
        },
        λ p. store.get_dword-values hklm (task_games_key store) "GPU Priority" w4 p ∙ s4 p,
      )
