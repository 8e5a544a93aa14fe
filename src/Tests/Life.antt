-- ===== src/Tests/Life.antt =====
-- The theorems about the MTU search, the hardware, the timer, the monitor and the relay at work on concrete inputs.
use disping.Common.{
  ℕ, ◌+◌, ◌-◌, ◌%◌, ◌≤◌, String, ◌≡◌, refl, Bool, true, false, some, ◌==◌, leb, ltb, arith,
  if◌then◌else◌,
}
use disping.Common.{suc, ◌++◌, ◌∷◌, [], length}
use disping.Common.State.{State}
use disping.Windows.Services.{TimerApi}
use disping.Mtu.{discover_optimal_mtu}
use disping.Mtu.Search
use disping.Common.Text.{codes}
use disping.Dns.{split_domain, encode_parts}
use disping.Dns.Packet
use disping.Hardware.{HardwareProfile, new_profile, calculate_optimal_gaming_affinity, all_cores}
use disping.Hardware.Affinity
use disping.Latency.{set_high_resolution_timer, restore_timer_resolution, new_optimizer, TimerState}
use disping.Latency.Timer
use disping.Ping.{Doubles, MonitorApi, run_continuous_monitor}
use disping.Ping.Counts
use disping.Proxy.{
  UdpProxy, new_proxy, start, destroy_idle, give_up, opening, forward, Steps, Step, here, step,
  starts,
}
use disping.Proxy.Life
use disping.Proxy.Relayed
use disping.Proxy.Sockets
use disping.Proxy.Sockets.{run_worker, open_listener}
use disping.Windows.Udp.{UdpApi}

-- A path that lets payloads of up to 1400 bytes pass.
abbrev tunnel_path : ℕ → State Unit Bool
tunnel_path n w = (leb n 1400, w)

discover_optimal_mtu-limit_example :
    let (r, w') = discover_optimal_mtu tunnel_path tt in
    (r.found ≡ true) × (r.optimal_mtu ≡ 1428) × (r.optimal_mss + 40 ≡ r.optimal_mtu)
discover_optimal_mtu-limit_example =
    Search.discover_optimal_mtu-limit tunnel_path 1400 (λ n w. refl) tt (omega arith) (omega arith)

discover_optimal_mtu-bounds_example :
    let r = (discover_optimal_mtu tunnel_path tt).0 in
    (1228 ≤ r.optimal_mtu) × (r.optimal_mtu ≤ 1500) × (r.optimal_mss + 40 ≡ r.optimal_mtu)
discover_optimal_mtu-bounds_example = Search.discover_optimal_mtu-bounds tunnel_path tt

-- A processor with eight cores of one kind.
abbrev pub eight_cores : HardwareProfile
eight_cores = record new_profile {
  logical_cores = 8;
  physical_cores = 4;
  p_core_count = 4;
  e_core_count = 0;
  is_hybrid = false;
  is_amd_x3d = false;
  optimal_game_affinity_mask = 255;
  has_avx512 = false;
  has_avx2 = true;
  has_avx = true;
  has_sse42 = true;
  total_ram_bytes = 17179869184;
  total_ram_gb = 16;
  is_low_ram = false;
  is_high_ram = true;
}

calculate_optimal_gaming_affinity-bounds_example :
    (1 ≤ calculate_optimal_gaming_affinity eight_cores)
    × (calculate_optimal_gaming_affinity eight_cores ≤ all_cores 8)
calculate_optimal_gaming_affinity-bounds_example =
    Affinity.calculate_optimal_gaming_affinity-bounds eight_cores (omega arith) (omega arith)
      (omega arith)

-- The outstanding requests for each period, and whether NtSetTimerResolution has one.
abbrev pub Timers : Type 0
Timers = (ℕ → ℕ) × Bool

abbrev pub timers : Bool → TimerApi Timers
timers nt = record {
  has_nt_set = nt;
  nt_set_timer_resolution = λ n on w. ((0, n), (w.0, on));
  time_begin_period = λ p w. (0, ((λ q. if q == p then w.0 q + 1 else w.0 q), w.1));
  time_end_period = λ p w. (0, ((λ q. if q == p then w.0 q - 1 else w.0 q), w.1));
}

abbrev pub timer_laws : (nt : Bool) → Timer.TimerLaws (timers nt)
timer_laws nt = record {
  periods = λ w. w.0;
  requested = λ w. w.1;
  begins = λ p w q. elim (q == p) [ true ↦ refl | false ↦ refl ];
  ends = λ p w q. refl;
  sets = λ n on w q. refl;
  set_requests = λ n on w. refl;
  begin_requests = λ p w. refl;
  end_requests = λ p w. refl;
}

abbrev pub idle : Timers
idle = ((λ q. 0), false)

abbrev no_text : ℕ → String
no_text n = ""

restore-set_high_resolution_timer_example :
    let ((r, s1), w1) = set_high_resolution_timer (timers false) no_text 30000 new_optimizer idle in
    let w2 = (restore_timer_resolution (timers false) no_text s1 w1).1 in w2.0 3 ≡ 1
restore-set_high_resolution_timer_example =
    Timer.restore-set_high_resolution_timer (timers false) no_text (timer_laws false) 30000
      new_optimizer idle 3 refl refl

abbrev locked : TimerState
locked = record { timer_set = true; actual_resolution_units = 5000; active_resolution = 5000 }

restore_timer_resolution-twice_example :
    let ((r1, s1), w1) = restore_timer_resolution (timers true) no_text locked idle in
    let ((r2, s2), w2) = restore_timer_resolution (timers true) no_text s1 w1 in
    (w1.1 ≡ false) × (s2 ≡ s1) × (w2 ≡ w1)
restore_timer_resolution-twice_example =
    Timer.restore_timer_resolution-twice (timers true) no_text (timer_laws true) locked idle refl
      refl refl

-- Times as whole numbers above 0, which stands for -1.
abbrev pub whole : Doubles ℕ
whole = record {
  minus_one = 0;
  zero_ms = 1;
  large_ms = 99999;
  one = 2;
  non_negative = λ x. ltb 0 x;
  tiny = λ x. leb x 1;
  minus = λ x y. x - y;
  less = ltb;
  loss_rate = λ a b. a;
  level = λ x y z. some (x - y);
  asm_calc_jitter_rfc3550 = λ x y. x + y;
  asm_calc_ping_stats = λ list. (1, 1, 1, 1);
}

-- A host whose answers alternate with losses; the world counts the pings.
abbrev flaky : MonitorApi ℕ ℕ
flaky = record {
  store_stop = λ b w. (tt, w);
  load_stop = λ w. (false, w);
  ping_single = λ host t w. (w % 2, w + 1);
  on_ping = λ s x w. (tt, w);
  sleep = λ t w. (tt, w);
}

run_continuous_monitor-Counted_example :
    let s = (run_continuous_monitor whole flaky "1.1.1.1" 5 100 0).0 in
    Counts.Counted whole s × (s.sent ≤ 5) × (((v : ℕ) → (flaky.load_stop v).0 ≡ false) → s.sent ≡ 5)
run_continuous_monitor-Counted_example =
    Counts.run_continuous_monitor-Counted whole flaky "1.1.1.1" 5 100 0

abbrev started : UdpProxy
started = (start 9000 "10.0.0.1" 27015 new_proxy).1

one_start : Steps new_proxy started
one_start =
    step new_proxy new_proxy started (here new_proxy) (starts 9000 "10.0.0.1" 27015 new_proxy)

destroy_idle-Steps_example :
    (started.terminated ≡ false)
    × (started.running ≡ false → (destroy_idle started).terminated ≡ false)
destroy_idle-Steps_example = Life.destroy_idle-Steps started one_start

start-give_up_example :
    ((start 9000 "10.0.0.1" 27015 (give_up started)).1.terminated ≡ true)
    × ((destroy_idle (give_up started)).terminated ≡ true)
    × Step (give_up started) (give_up started)
unfolding start
start-give_up_example = Life.start-give_up started 9000 "10.0.0.1" 27015 one_start refl

join_labels-read_labels_example :
    Packet.domain_of (
      Packet.read_labels
        (suc (length (split_domain (codes "valve.net"))))
        (encode_parts (split_domain (codes "valve.net")) ++ (0 ∷ 1 ∷ [])))
    ≡ some (codes "valve.net")
unfolding split_domain
join_labels-read_labels_example =
    Packet.join_labels-read_labels (codes "valve.net") (0 ∷ 1 ∷ [])
      ((omega arith, omega arith), ((omega arith, omega arith), tt))

-- A socket that binds, and on which a packet of three bytes waits.
abbrev pub one_socket : {W : Type 0} → UdpApi W
one_socket = record {
  socket = λ w. (some 7, w);
  set_option = λ sock option w. (tt, w);
  bind = λ sock port w. (true, w);
  inet_pton = λ text. 1;
  recvfrom = λ sock size w. (1 ∷ 2 ∷ 3 ∷ [], w);
  sendto = λ sock address port packet w. (some 3, w);
  closesocket = λ sock w. (tt, w);
}

abbrev begun : UdpProxy
begun = record new_proxy { running = true; joinable = true; worker = opening }

run_worker-Worked_example :
    let (q, u) = run_worker one_socket 2 5000 "1.1.1.1" 27015 begun tt in
    Relayed.Worked one_socket 2 5000 "1.1.1.1" 27015 begun tt q u
run_worker-Worked_example =
    Relayed.run_worker-Worked one_socket 2 5000 "1.1.1.1" 27015 begun tt (omega arith, omega arith)

run_worker-packets :
    (run_worker one_socket 2 5000 "1.1.1.1" 27015 begun tt).0.stats.bytes_forwarded ≡ 6
unfolding run_worker open_listener Sockets.bind_listener Sockets.relay_on Sockets.relay_rounds
    Sockets.relay_round Sockets.pass_on Sockets.sent_on forward
run_worker-packets = refl
