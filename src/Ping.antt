-- ===== src/Ping.antt =====
-- src/ping_monitor.cpp: the monitor loop and the sparkline. A `double` is a value of an abstract type, with the operations that the
-- code uses as parameters.
pub mod Counts
pub mod Single
use Prim.Native.String.{◌++◌}
use mathlib.Core.List
use disping.Common.{
  ℕ, zero, suc, ◌+◌, ◌-◌, String, Bool, true, false, not, Option, none, some, List, [], ◌∷◌, ltb,
  leb, length, drop, ◌==◌, if◌then◌else◌,
}
use disping.Common.State.{State, ◌>>=◌, ◌>>◌, pure}

-- Arithmetic on `double`.
pub record Doubles (D : Type 0) : Type 0 where
  pub minus_one : D
  pub zero_ms : D
  pub large_ms : D
  pub one : D
  -- `x >= 0.0`
  pub non_negative : D → Bool
  -- `x < 0.001`
  pub tiny : D → Bool
  pub minus : D → D → D
  -- `a < b`
  pub less : D → D → Bool
  -- `lost / sent * 100.0`
  pub loss_rate : ℕ → ℕ → D
  -- `static_cast<int>(((val - min) / range) * 6)`, `none` where it is negative
  pub level : D → D → D → Option ℕ
  -- the assembly routines: jitter, and minimum, maximum, average and deviation
  pub asm_calc_jitter_rfc3550 : D → D → D
  pub asm_calc_ping_stats : List D → D × D × D × D

pub record PingStats (D : Type 0) : Type 0 where
  pub target : String
  pub sent : ℕ
  pub received : ℕ
  pub lost : ℕ
  pub loss_rate : D
  pub min_rtt_ms : D
  pub max_rtt_ms : D
  pub avg_rtt_ms : D
  pub jitter_ms : D
  pub std_dev_ms : D
  pub rtt_history : List D

-- The local variables of the loop.
pub record Monitor (D : Type 0) : Type 0 where
  pub stats : PingStats D
  pub previous_rtt : D
  pub valid_rtts : List D

-- What the loop calls: the flag that another thread may set, PingSingle, the callback, Sleep.
pub record MonitorApi (W D : Type 0) : Type 0 where
  pub store_stop : Bool → State W Unit
  pub load_stop : State W Bool
  pub ping_single : String → ℕ → State W D
  pub on_ping : PingStats D → D → State W Unit
  pub sleep : ℕ → State W Unit

module _ {D : Type 0} (d : Doubles D) where
  abbrev append : List D → D → List D
  append xs x = List.◌++◌ xs (x ∷ [])

  -- The body of the loop for one answer, up to the loss rate.
  unfoldable pub record_rtt : D → Monitor D → Monitor D
  record_rtt rtt m =
      let s = m.stats in
      if d.non_negative rtt
      then (let valid = append m.valid_rtts rtt in
          let (low, high, avg, dev) = d.asm_calc_ping_stats valid in
          record {
            stats = record s {
              received = s.received + 1;
              rtt_history = append s.rtt_history rtt;
              jitter_ms =
                  if d.non_negative m.previous_rtt
                  then d.asm_calc_jitter_rfc3550 s.jitter_ms (d.minus rtt m.previous_rtt)
                  else s.jitter_ms;
              min_rtt_ms = low;
              max_rtt_ms = high;
              avg_rtt_ms = avg;
              std_dev_ms = dev;
            };
            previous_rtt = rtt;
            valid_rtts = valid;
          })
      else record m {
        stats = record s { lost = s.lost + 1; rtt_history = append s.rtt_history d.minus_one };
      }

  abbrev pub with_loss_rate : Monitor D → Monitor D
  with_loss_rate m = record m {
    stats = record m.stats {
      loss_rate = if ltb 0 m.stats.sent then d.loss_rate m.stats.lost m.stats.sent else d.zero_ms;
    };
  }

  abbrev pub count_sent : Monitor D → Monitor D
  count_sent m = record m { stats = record m.stats { sent = m.stats.sent + 1 } }

  abbrev pub fresh : String → Monitor D
  fresh target_host = record {
    stats = record {
      target = target_host;
      sent = 0;
      received = 0;
      lost = 0;
      loss_rate = d.zero_ms;
      min_rtt_ms = d.large_ms;
      max_rtt_ms = d.zero_ms;
      avg_rtt_ms = d.zero_ms;
      jitter_ms = d.zero_ms;
      std_dev_ms = d.zero_ms;
      rtt_history = [];
    };
    previous_rtt = d.minus_one;
    valid_rtts = [];
  }

  module _ {W : Type 0} (api : MonitorApi W D) where
    unfoldable pub pause : ℕ → ℕ → State W Unit
    pause zero interval_ms = pure tt
    pause (suc rest) interval_ms = do
      stop ← api.load_stop
      if stop then pure tt else api.sleep interval_ms

    -- The loop with the number of rounds that are left.
    unfoldable pub monitor_loop : ℕ → ℕ → Monitor D → State W (Monitor D)
    monitor_loop zero interval_ms m w = (m, w)
    monitor_loop (suc rest) interval_ms m w =
        let (stop, w1) = api.load_stop w in
        elim stop [
          | true ↦ (m, w1)
          | false ↦
              let (rtt, w2) = api.ping_single m.stats.target 1000 w1 in
              let m' = with_loss_rate (record_rtt rtt (count_sent m)) in
              let w3 = (api.on_ping m'.stats rtt w2).1 in
              let w4 = (pause rest interval_ms w3).1 in monitor_loop rest interval_ms m' w4
        ]

    -- The minimum of a run without an answer is 0.
    abbrev finish : PingStats D → PingStats D
    finish s = if s.received == 0 then record s { min_rtt_ms = d.zero_ms } else s

    unfoldable pub run_continuous_monitor : String → ℕ → ℕ → State W (PingStats D)
    run_continuous_monitor target_host count interval_ms = do
      api.store_stop false
      m ← monitor_loop count interval_ms (fresh target_host)
      pure (finish m.stats)

  -- The loop of GenerateSparkline over the entries that are shown.
  abbrev bars : List String
  bars = "_" ∷ "." ∷ "-" ∷ "=" ∷ "o" ∷ "O" ∷ "#" ∷ []

  abbrev pub clamp : Option ℕ → ℕ
  clamp none = 0
  clamp (some level) = if leb 7 level then 6 else level

  abbrev pub bar : ℕ → List String → String
  bar level [] = ""
  bar zero (s ∷ rest) = s
  bar (suc level) (s ∷ rest) = bar level rest

  unfoldable pub draw : D → D → List D → String
  draw min_val range [] = ""
  draw min_val range (val ∷ rest) =
      let more = draw min_val range rest in
      if d.non_negative val
      then bar (clamp (d.level val min_val range)) bars ++ more
      else "X" ++ more

  -- `std::min_element` and `std::max_element` of a list with the given first element.
  abbrev lowest : D → List D → D
  lowest m [] = m
  lowest m (x ∷ rest) = lowest (if d.less x m then x else m) rest

  abbrev highest : D → List D → D
  highest m [] = m
  highest m (x ∷ rest) = highest (if d.less m x then x else m) rest

  unfoldable pub valid_pings : List D → List D
  valid_pings [] = []
  valid_pings (v ∷ rest) =
      let more = valid_pings rest in if d.non_negative v then v ∷ more else more

  -- The sparkline of a history with the given valid pings; `val < 0.0` is the negation of `val >= 0.0`, there being no NaN.
  unfoldable pub sparkline_of : List D → List D → ℕ → String
  sparkline_of [] history width = "[PACKET LOSS]"
  sparkline_of (v ∷ valid) history width =
      let min_val = lowest v valid in
      let range = d.minus (highest v valid) min_val in
      draw min_val (if d.tiny range then d.one else range) (drop (length history - width) history)

  unfoldable pub generate_sparkline : List D → ℕ → String
  generate_sparkline [] width = ""
  generate_sparkline (v ∷ rest) width = sparkline_of (valid_pings (v ∷ rest)) (v ∷ rest) width
