-- ===== src/Benchmark/Run.antt =====
-- RunComparisonBenchmark of src/benchmark_runner.cpp.
use Prim.Native.String.{◌++◌}
use disping.Common.{String, []}
use disping.Common.State.{State, ◌>>=◌, ◌>>◌, pure}
use disping.Common.Text.{to_string}
use disping.Console.{coloured, yellow, cyan, bright_green, print_header}
use disping.Network.{apply_all_network_tweaks}
use disping.Adapter.Wifi.{optimize_all_network_adapters}
use disping.Latency.{
  new_optimizer, set_high_resolution_timer, restore_timer_resolution, optimize_mmcss_games_profile,
}
use disping.Qos.{setup_gaming_qos_policies}
use disping.Memory.{clean_gaming_memory}
use disping.Benchmark.Metrics.{BenchmarkMetrics, measure_metrics}
use disping.Benchmark.Table.{print_comparison_table}
use disping.Program.{Program}

module _ {W D : Type 0} (p : Program W D) where
  open p use {parts, api, wlan, timer, console, texts}

  abbrev print : String → State W Unit
  print text = console.print text

  -- The lines below the first measurement.
  unfoldable pub print_before : String → BenchmarkMetrics D → State W Unit
  print_before ping_target before = do
    print ("  - Тикрейт таймера: " ++ (texts.fixed before.timer_resolution_ms 3 ++ " ms\n"))
    print ("  - Точность Sleep(1ms): " ++ (texts.fixed before.sleep_accuracy_1_ms_avg 2 ++ " ms\n"))
    print (
        "  - Память ОЗУ занята: "
        ++ (to_string before.memory_load_percent
            ++ ("% (" ++ (to_string before.available_ram_mb ++ " MB свободно)\n"))))
    print (
        "  - Пинг до "
        ++ (ping_target
            ++ (": "
                ++ (texts.fixed before.ping.avg_rtt_ms 2
                    ++ (" ms (Джиттер: " ++ (texts.fixed before.ping.jitter_ms 2 ++ " ms)\n"))))))

  -- The optimizers between the two measurements are local variables: the destructor of the last but two restores the timer.
  unfoldable pub run_comparison_benchmark : String → State W Unit
  run_comparison_benchmark ping_target = do
    print_header console "ЗАПУСК БЕНЧМАРКА В РЕАЛЬНЫХ ЗАДАЧАХ (ДО И ПОСЛЕ)"
    print
        (coloured yellow "[1/4] Измерение исходного состояния системы (ДО оптимизации)..." ++ "\n")
    before ← measure_metrics parts ping_target
    print_before ping_target before
    print (
        "\n"
        ++ (coloured cyan "[2/4] Применение экстремального комплекса оптимизаций DisPing..."
            ++ "\n"))
    apply_all_network_tweaks api parts.store
    optimize_all_network_adapters parts.store wlan
    (r, s) ← set_high_resolution_timer timer texts.show_ms 5000 new_optimizer
    optimize_mmcss_games_profile parts.store
    setup_gaming_qos_policies parts.store []
    clean_gaming_memory parts.procs api
    print (
        "\n"
        ++ (coloured yellow "[3/4] Измерение улучшенного состояния системы (ПОСЛЕ оптимизации)..."
            ++ "\n"))
    after ← measure_metrics parts ping_target
    print
        ("\n" ++ (coloured bright_green "[4/4] Формирование итогового отчёта сравнения..." ++ "\n"))
    print_comparison_table parts.doubles parts.bench texts.fixed before after console
    restore_timer_resolution timer texts.show_ms s
    pure tt
