-- ===== src/Tests/Session.antt =====
-- The theorems about the daemon, the benchmark, the dispatch and the command line at work on concrete inputs.
use disping.Common.{
  if◌then◌else◌, ◌==◌, ℕ, ◌+◌, ◌-◌, ◌/◌, ◌%◌, ◌<◌, ◌≡◌, String, refl, true, false, inl, none, some,
  List, [], ◌∷◌, length, leb, arith,
}
use disping.Common.State.{State}
use disping.Common.State.Keeps.{Keeps}
use disping.Windows.Console.{ConsoleApi}
use disping.Store.Keeps.{Holds}
use disping.Latency.Daemon.{TimerDaemon, starting, no_daemon}
use disping.Latency.{new_optimizer}
use disping.Latency.Daemon.Ops.{DaemonOp, start, stop, tick, run_ops, Returns}
use disping.Latency.Daemon.Life
use disping.Benchmark.Checksum.{scalar_checksum16}
use disping.Benchmark.Checksum.Sum
use disping.Benchmark.Table.{pad_utf8}
use disping.Benchmark.Table.Width
use disping.Benchmark.Metrics.{BenchParts, check_registry_tweaks}
use disping.Benchmark.Metrics.Claims
use disping.Dispatch.{
  AsmApi, empty_table, disping_fast_checksum_auto, disping_fast_memzero_auto, disping_read_tsc_auto,
}
use disping.Dispatch.Choice
use disping.Windows.Hardware.{HardwareApi}
use disping.Hardware.{amd, new_profile}
use disping.Common.Text.{same}
use disping.Hardware.Cpu
use disping.Program.{Program}
use disping.Console.{init_console}
use disping.Cli.Boost.{heal_now}
use disping.Cli.{main}
use disping.Cli.Exits
use disping.Cli.Menu.Settings.{choose_rollback}
use disping.Cli.Confirm
use disping.Tests.Machine.{Machine}
use disping.Tests.Components.{two_adapters, memory_store, steady, one_interface}
use disping.Tests.Optimizers.{
  some_place, calm, no_timer, no_text, one_path, one_server, milliseconds,
}
use disping.Tests.Healing.{accounts, at_two}
use disping.Tests.Life.{whole, one_socket, Timers, timers, timer_laws, idle}
use disping.Latency.Daemon.Requests.{NtTimer}

abbrev nap : ℕ → State Machine Unit
nap t w = (tt, w)

abbrev rest : ℕ → State Timers Unit
rest n w = (tt, w)

abbrev on_off : List DaemonOp
on_off = start 5000 ∷ tick ∷ tick ∷ stop ∷ start 10000 ∷ []

-- NtSetTimerResolution is there and succeeds, and a sleep changes nothing.
nt_timer : NtTimer (timers true) (timer_laws true) rest
nt_timer = record { there = refl; undone = λ n w. refl; sleeps = λ n w. refl }

run_ops_refines_example :
    let (r, w') = run_ops (timers true) no_text rest on_off no_daemon idle in
    Returns true r × (true ≡ false → w'.1 ≡ false)
run_ops_refines_example =
    Life.run_ops_refines (timers true) no_text rest (timer_laws true) nt_timer on_off idle refl

abbrev begun : TimerDaemon
begun = record { running = true; joinable = true; phase = starting 5000; state = new_optimizer }

scalar_checksum16-words_sum_example :
    (c : ℕ) × (scalar_checksum16 (0x45 ∷ 0x00 ∷ 0x1c ∷ []) ≡ some c)
    × (c < 65536)
    × ((c + Sum.words_sum (0x45 ∷ 0x00 ∷ 0x1c ∷ [])) % 65535 ≡ 0)
scalar_checksum16-words_sum_example =
    Sum.scalar_checksum16-words_sum (0x45 ∷ 0x00 ∷ 0x1c ∷ []) (omega arith) (omega arith)

characters-pad_utf8_example : Width.characters (pad_utf8 "Пинг" 26) ≡ 26
characters-pad_utf8_example = Width.characters-pad_utf8 "Пинг" 26

check_registry_tweaks-Claims_example :
    Claims.Claims memory_store (check_registry_tweaks memory_store two_adapters).0 two_adapters
    × ((p : _)
        → memory_store.value (check_registry_tweaks memory_store two_adapters).1 p
          ≡ memory_store.value two_adapters p)
check_registry_tweaks-Claims_example = Claims.check_registry_tweaks-Claims memory_store two_adapters

abbrev old_cpu : AsmApi ℕ
old_cpu = record {
  asm_has_avx2_support = false;
  asm_has_rdtscp_support = true;
  asm_avx2_checksum = λ buffer w. (0, w);
  asm_sse2_checksum = λ buffer w. (length buffer, w);
  asm_avx2_memzero_nt = λ dst size w. (tt, w);
  asm_sse2_memzero_nt = λ dst size w. (tt, w + size);
  asm_read_tsc_fast_serialized = λ w. (w, w + 1);
  asm_read_tsc_serialized = λ w. (w, w + 9);
}

empty-Fits : Choice.Fits old_cpu empty_table
empty-Fits = record { checksum = inl refl; memzero = inl refl; tsc = inl refl }

dispatch-Fits_example :
    ((disping_fast_checksum_auto old_cpu (1 ∷ 2 ∷ []) empty_table 5).1 ≡ some (2, 5))
    × ((disping_fast_memzero_auto old_cpu 64 8 empty_table 5).1 ≡ some (tt, 13))
    × ((disping_read_tsc_auto old_cpu empty_table 5).1 ≡ some (5, 6))
    × Choice.Fits old_cpu (disping_fast_checksum_auto old_cpu (1 ∷ 2 ∷ []) empty_table 5).0
    × Choice.Fits old_cpu (disping_fast_memzero_auto old_cpu 64 8 empty_table 5).0
    × Choice.Fits old_cpu (disping_read_tsc_auto old_cpu empty_table 5).0
dispatch-Fits_example = Choice.dispatch-Fits old_cpu empty_table (1 ∷ 2 ∷ []) 64 8 5 empty-Fits

abbrev parts_of_it : BenchParts Machine ℕ
parts_of_it = record {
  doubles = whole;
  bench = record {
    default_resolution = 15;
    unreachable_ms = 999;
    of_units = λ n. n / 10000;
    elapsed_ms = λ a b f. b - a;
    plus = λ a b. a + b;
    over = λ a n. a / n;
    ratio = λ a b. a / b;
    thousandth = 0;
    half = 1;
    dns_limit = 900;
  };
  clock = record {
    query_performance_frequency = λ w. (10, w);
    query_performance_counter = λ w. (3, w);
    sleep = nap;
  };
  nt_query = none;
  procs = calm;
  dns = one_server;
  lat = milliseconds;
  sort = λ list. list;
  icmp = one_path;
  echo = record {
    icmp_send_echo2 = λ handle address timeout w. ((1, 0), w);
    now = λ w. (0, w);
    milliseconds = λ t1 t2. t2 - t1;
    no_answer = 0;
  };
  monitor = record {
    store_stop = λ b w. (tt, w);
    load_stop = λ w. (false, w);
    ping_single = λ host t w. (7, w);
    on_ping = λ s x w. (tt, w);
    sleep = nap;
  };
  store = memory_store;
  benchmark_assembly_routines = λ w. (
    record {
      scalar_checksum_throughput_mbs = 1;
      asm_checksum_throughput_mbs = 2;
      asm_speedup_factor = 2;
      crc32_throughput_mbs = 3;
      memzero_throughput_gbs = 4;
      simd_stats_speedup = 5;
      qpc_cycles = 60;
      rdtsc_cycles = 20;
    },
    w,
  );
}

-- The keyboard says no.
abbrev no_console : ConsoleApi Machine
no_console = record {
  print = λ text w. (tt, w);
  getch = λ w. (b'n', w);
  getline = λ w. ("", w);
  get = λ w. (10, w);
  enable_terminal = λ w. (tt, w);
  set_output_utf8 = λ w. (tt, w);
}

-- An AMD processor with eight threads, of whose cores Windows lists one.
abbrev eight_threads : HardwareApi Machine
eight_threads = record {
  cpuid = λ leaf subleaf w. (
    (if leaf == 0
        then record { eax = 13; ebx = 0x68747541; ecx = 0x444D4163; edx = 0x69746E65 }
        else record { eax = 0; ebx = 32; ecx = 0; edx = 0 }),
    w,
  );
  number_of_processors = λ w. (8, w);
  processor_cores_length = λ w. ((true, 192), w);
  processor_cores =
      λ length w. (some (record { is_core = true; efficiency_class = 0; mask = 3 } ∷ []), w);
}

abbrev whole_program : Program Machine ℕ
whole_program = record {
  parts = parts_of_it;
  api = steady;
  wlan = one_interface;
  services = record {
    open_sc_manager = λ w. (none, w);
    open_service = λ h name access w. (none, w);
    control_service_stop = λ h w. (true, w);
    change_start_type = λ h n w. (true, w);
    close_service_handle = λ h w. (tt, w);
  };
  timer = no_timer;
  files = record {
    can_open = λ name w. (false, w);
    open_output = λ name w. (none, w);
    write = λ out text w. (tt, w);
    close = λ out w. (tt, w);
  };
  heal = accounts;
  regex = at_two;
  console = no_console;
  texts = record {
    fixed = λ x n. "";
    hex = no_text;
    key = no_text;
    show_ms = no_text;
    prefix = λ n text. text;
    bytes = λ codes'. "";
    is_ultra = λ x. leb x 0;
    is_fine = λ x. leb x 1;
    is_raised = λ x. leb x 1;
    stamp = "";
    port = λ text. none;
  };
  hw = eight_threads;
  has_rdtscp = true;
  benchmark_multiple_targets = λ hosts n w. ([], w);
  run_verification_tests = λ w. (tt, w);
  udp = one_socket;
  relay_rounds = 2;
  latency_text = λ proxy. "";
  ticks = 2;
  wsa_startup = λ w. (tt, w);
  wsa_cleanup = λ w. (tt, w);
}

abbrev tune_adapters : List String
tune_adapters = "--adapter" ∷ []

main-ExitsWith_example :
    let healed = (heal_now whole_program (init_console no_console two_adapters).1).1 in
    Exits.ExitsWith
      (Exits.told whole_program tune_adapters healed)
      (main whole_program 3 tune_adapters two_adapters).0
main-ExitsWith_example = Exits.main-ExitsWith whole_program 3 tune_adapters two_adapters

choose_rollback-Keeps_example :
    Keeps (Holds memory_store some_place none) (choose_rollback whole_program)
choose_rollback-Keeps_example =
    Confirm.choose_rollback-Keeps whole_program
      record { prints = λ text. record { at = λ w h. h }; keys = record { at = λ w h. h } }
      λ w asked. absurd (cc asked)

read_vendor-amd : (Cpu.read_vendor eight_threads new_profile two_adapters).0.cpu_vendor ≡ amd
unfolding Cpu.read_vendor Cpu.vendor_of Cpu.word_bytes Cpu.c_string same
read_vendor-amd = refl
