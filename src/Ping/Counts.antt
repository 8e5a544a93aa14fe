-- ===== src/Ping/Counts.antt =====
-- The numbers that RunContinuousMonitor of src/ping_monitor.cpp reports.
use disping.Common.{
  ℕ, zero, suc, ◌+◌, ◌≤◌, String, ◌≡◌, refl, ◌∙◌, true, false, [], ◌∷◌, length, length-append,
  arith, ◌==◌, Bool-cases, inl, inr,
}
use disping.Ping.{
  finish, Doubles, PingStats, Monitor, MonitorApi, record_rtt, with_loss_rate, count_sent, fresh,
  pause, monitor_loop, run_continuous_monitor,
}

module _ {D : Type 0} (d : Doubles D) where
  -- Every ping that was sent is counted once, as received or as lost, and has an entry in the history.
  abbrev pub Counted : PingStats D → Type 0
  Counted s = (s.sent ≡ s.received + s.lost) × (length s.rtt_history ≡ s.sent)

  record_rtt-Counted :
      (rtt : D) (m : Monitor D)
      → Counted m.stats
      → Counted (record_rtt d rtt (count_sent d m)).stats
  unfolding record_rtt
  record_rtt-Counted rtt m (total, entries) = elim (Bool-cases (d.non_negative rtt)) [
    | inl ok ↦ rw ok (omega arith, omega (arith, length-append m.stats.rtt_history (rtt ∷ [])))
    | inr bad ↦
        rw bad (omega arith, omega (arith, length-append m.stats.rtt_history (d.minus_one ∷ [])))
  ]

  record_rtt-sent : (rtt : D) (m : Monitor D) → (record_rtt d rtt m).stats.sent ≡ m.stats.sent
  unfolding record_rtt
  record_rtt-sent rtt m = elim (Bool-cases (d.non_negative rtt)) [
    | inl ok ↦ rw ok refl
    | inr bad ↦ rw bad refl
  ]

  module _ {W : Type 0} (api : MonitorApi W D) where
    -- One round that is not stopped.
    abbrev round : Monitor D → ℕ → ℕ → W → Monitor D × W
    round m rest interval_ms w =
        let w1 = (api.load_stop w).1 in
        let (rtt, w2) = api.ping_single m.stats.target 1000 w1 in
        let m' = with_loss_rate d (record_rtt d rtt (count_sent d m)) in
        let w3 = (api.on_ping m'.stats rtt w2).1 in (m', (pause d api rest interval_ms w3).1)

    stopped :
        (rest t : ℕ) (m : Monitor D) (w : W)
        → (api.load_stop w).0 ≡ true
        → (monitor_loop d api (suc rest) t m w).0 ≡ m
    unfolding monitor_loop
    stopped rest t m w stop = ground arith

    running :
        (rest t : ℕ) (m : Monitor D) (w : W)
        → (api.load_stop w).0 ≡ false
        → monitor_loop d api (suc rest) t m w
          ≡ (let (m', w') = round m rest t w in monitor_loop d api rest t m' w')
    unfolding monitor_loop
    running rest t m w go = ground arith

    monitor_loop-Counted :
        (rest t : ℕ) (m : Monitor D) (w : W)
        → Counted m.stats
        → Counted (monitor_loop d api rest t m w).0.stats
          × ((monitor_loop d api rest t m w).0.stats.sent ≤ m.stats.sent + rest)
    unfolding monitor_loop
    monitor_loop-Counted zero t m w h = (h, omega arith)
    monitor_loop-Counted (suc rest) t m w h = elim (Bool-cases (api.load_stop w).0) [
      | inl stop ↦ rw (stopped rest t m w stop) (h, omega arith)
      | inr go ↦
          let (rtt, w2) = api.ping_single m.stats.target 1000 (api.load_stop w).1 in
          let (m', w') = round m rest t w in
          let (h', bound) = monitor_loop-Counted rest t m' w' (record_rtt-Counted rtt m h) in
          rw (running rest t m w go)
            (h', omega (arith, bound, record_rtt-sent rtt (count_sent d m)))
    ]

    monitor_loop-all :
        ((w : W) → (api.load_stop w).0 ≡ false)
        → (rest t : ℕ) (m : Monitor D) (w : W)
        → (monitor_loop d api rest t m w).0.stats.sent ≡ m.stats.sent + rest
    unfolding monitor_loop
    monitor_loop-all never zero t m w = omega arith
    monitor_loop-all never (suc rest) t m w =
        let (rtt, w2) = api.ping_single m.stats.target 1000 (api.load_stop w).1 in
        let (m', w') = round m rest t w in
        rw (running rest t m w (never w))
          (omega (arith, monitor_loop-all never rest t m' w', record_rtt-sent rtt (count_sent d m)))

    finish-Counted : (s : PingStats D) → Counted s → Counted (finish d api s)
    finish-Counted s h = elim (Bool-cases (s.received == 0)) [
      | inl lost ↦ rw lost h
      | inr some ↦ rw some h
    ]

    finish-sent : (s : PingStats D) → (finish d api s).sent ≡ s.sent
    finish-sent s = elim (Bool-cases (s.received == 0)) [
      | inl lost ↦ rw lost refl
      | inr some ↦ rw some refl
    ]

    -- Whenever the monitor is stopped, it reports every ping that was sent once, as received
    -- or as lost and in the history, and has sent no more than were asked for; if it is never
    -- stopped it has sent them all.
    pub run_continuous_monitor-Counted :
        (host : String) (count t : ℕ) (w : W)
        → let s = (run_continuous_monitor d api host count t w).0 in
          Counted s × (s.sent ≤ count) × (((v : W) → (api.load_stop v).0 ≡ false) → s.sent ≡ count)
    unfolding run_continuous_monitor
    run_continuous_monitor-Counted host count t w =
        let w1 = (api.store_stop false w).1 in
        let s = (monitor_loop d api count t (fresh d host) w1).0.stats in
        let (h, bound) = monitor_loop-Counted count t (fresh d host) w1 (refl, refl) in
        let same = finish-sent s in
        (
          finish-Counted s h,
          omega (arith, bound, same),
          λ never. same ∙ (monitor_loop-all never count t (fresh d host) w1 ∙ (omega arith)),
        )
