-- ===== src/Benchmark/Table.antt =====
-- PadUtf8, PrintRow and PrintComparisonTable of src/benchmark_runner.cpp. FormatDouble stands for `std::fixed` with
-- `std::setprecision`.
pub mod Width
use Prim.Native.Char.{code}
use Prim.Native.String.{◌++◌}
use mathlib.Core.List
use disping.Common.{
  ℕ, ◌+◌, ◌-◌, String, Bool, true, false, not, ◌&&◌, ◌||◌, List, [], ◌∷◌, ltb, if◌then◌else◌, ◌/◌,
  ◌%◌, ◌==◌,
}
use disping.Common.State.{State, ◌>>=◌, ◌>>◌, pure}
use disping.Common.Text.{to_string}
use disping.Windows.Console.{ConsoleApi}
use disping.Console.{coloured, bright_green, cyan, print_header}
use disping.Console.Tables.{repeated}
use disping.Ping.{Doubles}
use disping.Benchmark.Metrics.{BenchmarkMetrics, BenchDoubles}

-- A character in UTF-8, before other bytes.
unfoldable pub encoded : ℕ → List ℕ → List ℕ
encoded c rest =
    if ltb c 0x80
    then c ∷ rest
    else if ltb c 0x800
    then (0xC0 + c / 64) ∷ (0x80 + c % 64) ∷ rest
    else if ltb c 0x1_0000
    then (0xE0 + c / 4096) ∷ (0x80 + c / 64 % 64) ∷ (0x80 + c % 64) ∷ rest
    else (0xF0 + c / 262144 % 8)
      ∷ (0x80 + c / 4096 % 64)
      ∷ (0x80 + c / 64 % 64)
      ∷ (0x80 + c % 64)
      ∷ rest

-- The bytes of a text.
unfoldable pub bytes_of : String → List ℕ
bytes_of String.[] = []
bytes_of (String.◌∷◌ c s) = encoded (code c) (bytes_of s)

-- The loop over the bytes: `(b & 0xC0) != 0x80` tests the two highest bits of a byte.
unfoldable pub count_starts : List ℕ → ℕ
count_starts [] = 0
count_starts (b ∷ bytes) =
    let rest = count_starts bytes in if not (b / 64 % 4 == 2) then rest + 1 else rest

-- `charCount`.
unfoldable pub char_count : String → ℕ
char_count str = count_starts (bytes_of str)

unfoldable pub pad_utf8 : String → ℕ → String
pad_utf8 str target_width =
    if ltb (char_count str) target_width
    then str ++ repeated (target_width - char_count str) " "
    else str

pub record Row : Type 0 where
  pub title : String
  pub s1 : String
  pub s2 : String
  pub diff : String

abbrev pub row : String → String → String → String → Row
row t a b d = record { title = t; s1 = a; s2 = b; diff = d }

unfoldable pub row_text : Row → String
row_text r = pad_utf8 r.title 38 ++ (pad_utf8 r.s1 26 ++ (pad_utf8 r.s2 26 ++ (r.diff ++ "\n")))

abbrev green : String → String
green text = coloured bright_green text

abbrev choose : Bool → String → String → String
choose b yes' no' = if b then yes' else no'

module _ {D : Type 0} (d : Doubles D) (b : BenchDoubles D) (fixed : D → ℕ → String)
    (before after : BenchmarkMetrics D) where
  abbrev positive : D → Bool
  positive x = d.less d.zero_ms x

  timer_row : Row
  timer_row =
      let late = after.timer_resolution_ms in
      let factor =
        b.ratio before.timer_resolution_ms (if d.less b.thousandth late then late else b.half) in
      row "Тикрейт таймера ОС (Resolution)" (fixed before.timer_resolution_ms 3 ++ " ms")
        (fixed late 3 ++ " ms") (green ("+" ++ (fixed factor 1 ++ "x быстрее (2000 Hz)")))

  sleep_row : Row
  sleep_row =
      let diff_ms = d.minus before.sleep_accuracy_1_ms_avg after.sleep_accuracy_1_ms_avg in
      row "Точность Sleep(1ms) (Input Lag)" (fixed before.sleep_accuracy_1_ms_avg 2 ++ " ms")
        (fixed after.sleep_accuracy_1_ms_avg 2 ++ " ms")
        (green ("-" ++ (fixed diff_ms 2 ++ " ms задержки сна")))

  -- The third to the sixth row: the effect is the same text whatever was measured.
  registry_rows : List Row
  registry_rows =
      row "Троттлинг сети Windows"
        (choose before.registry.network_throttling_disabled "Отключен" "ВКЛЮЧЕН (10k пак/с)")
        (choose after.registry.network_throttling_disabled "ОТКЛЮЧЕН (Без лимита)" "Включен")
        (green "+Снято ограничение пакетов")
      ∷ row "Алгоритм Нагла (TCPNoDelay)"
          (choose before.registry.nagle_disabled "Отключен" "ВКЛЮЧЕН (Задержка)")
          (choose after.registry.nagle_disabled "ОТКЛЮЧЕН (TCPNoDelay)" "Включен")
          (green "0 ms задержки буфера TCP")
      ∷ row "Частота ACK (TcpAckFrequency)"
          (choose before.registry.ack_frequency_optimized "1 (Мгновенно)"
            "Дефолт (200мс ACK delay)")
          (choose after.registry.ack_frequency_optimized "1 (МГНОВЕННЫЙ ACK)" "Дефолт")
          (green "Ликвидирован 200мс ACK лаг")
      ∷ row "MMCSS профиль для игр" (choose before.registry.mmcss_boosted "GPU=8, High" "Обычный")
          (choose after.registry.mmcss_boosted "GPU=8, High" "Обычный")
          (green "+Максимальный игровой приоритет")
      ∷ []

  ping_rows : List Row
  ping_rows =
      let early = before.ping.avg_rtt_ms in
      let late = after.ping.avg_rtt_ms in
      let pdiff = d.minus early late in
      if positive early || positive late
      then row "Средний пинг до шлюза (RTT)" (fixed early 2 ++ " ms") (fixed late 2 ++ " ms") (
          if positive pdiff
          then green ("-" ++ (fixed pdiff 2 ++ " ms (Улучшение)"))
          else coloured cyan "Стабильно ультра-низкий")
        ∷ []
      else []

  jitter_rows : List Row
  jitter_rows =
      let early = before.ping.jitter_ms in
      let late = after.ping.jitter_ms in
      let jdiff = d.minus early late in
      if positive early || positive late
      then row "Сетевой джиттер (RFC 3550)" (fixed early 3 ++ " ms") (fixed late 3 ++ " ms") (
          if positive jdiff
          then green ("-" ++ (fixed jdiff 3 ++ " ms (Стабильнее)"))
          else green "Минимальный джиттер")
        ∷ []
      else []

  abbrev ram_text : BenchmarkMetrics D → String
  ram_text m =
      to_string m.available_ram_mb ++ (" MB (" ++ (to_string m.memory_load_percent ++ "%)"))

  -- `freed > 0` of the difference as a signed number.
  memory_row : Row
  memory_row = row "Свободная память ОЗУ" (ram_text before) (ram_text after) (
      if ltb before.available_ram_mb after.available_ram_mb
      then green (
          "+"
          ++ (to_string (after.available_ram_mb - before.available_ram_mb)
              ++ " MB свободно (Нет фризов)"))
      else coloured cyan "Очищен Standby кэш")

  dns_rows : List Row
  dns_rows =
      if positive before.dns_resolution_ms && d.less before.dns_resolution_ms b.dns_limit
      then row "Задержка DNS резолва" (fixed before.dns_resolution_ms 1 ++ " ms")
          (fixed after.dns_resolution_ms 1 ++ " ms") (green "Быстрый игровой резолв")
        ∷ []
      else []

  assembly_rows : List Row
  assembly_rows =
      row "Сетевой расчёт сумм пакетов"
        (fixed after.assembly.scalar_checksum_throughput_mbs 0 ++ " MB/s (C++)")
        (fixed after.assembly.asm_checksum_throughput_mbs 0 ++ " MB/s (NASM)")
        (green ("+" ++ (fixed after.assembly.asm_speedup_factor 1 ++ "x ускорение на ASM")))
      ∷ row "Стоимость чтения таймера" (to_string before.assembly.qpc_cycles ++ " тактов CPU (QPC)")
          (to_string before.assembly.rdtsc_cycles ++ " тактов CPU (RDTSC)")
          (green "Минимальный overhead")
      ∷ row "Аппаратный CRC32-C расчёт" "Программный CRC"
          (fixed after.assembly.crc32_throughput_mbs 0 ++ " MB/s (Zen3)")
          (green "Аппаратная инструкция CPU")
      ∷ row "Очистка пакетов AVX2 Stream" "Обычный memset"
          (fixed after.assembly.memzero_throughput_gbs 1 ++ " GB/s (AVX2)")
          (green "Без загрязнения кэша L1/L2")
      ∷ row "Расчёт статистики RTT в SIMD" "4 скалярных прохода" "1 SIMD проход"
          (green ("+" ++ (fixed after.assembly.simd_stats_speedup 1 ++ "x быстрее")))
      ∷ []

  unfoldable pub comparison_rows : List Row
  unfolding timer_row sleep_row registry_rows ping_rows jitter_rows memory_row dns_rows
      assembly_rows
  comparison_rows =
      timer_row
      ∷ sleep_row
      ∷ List.◌++◌ registry_rows (
          List.◌++◌ ping_rows
            (List.◌++◌ jitter_rows (memory_row ∷ List.◌++◌ dns_rows assembly_rows)))

  module _ {W : Type 0} (console : ConsoleApi W) where
    open console use {print}

    unfoldable pub print_rows : List Row → State W Unit
    print_rows [] = pure tt
    print_rows (r ∷ rows) = do print (row_text r); print_rows rows

    unfoldable pub print_comparison_table : State W Unit
    print_comparison_table = do
      print_header console "РЕАЛЬНЫЕ ТЕСТЫ: СРАВНЕНИЕ РЕЗУЛЬТАТОВ ДО И ПОСЛЕ ОПТИМИЗАЦИИ"
      print (
          row_text
            (row "Метрика / Параметр" "ДО Оптимизации" "ПОСЛЕ Оптимизации" "Разница / Эффект"))
      print (repeated 115 "=" ++ "\n")
      print_rows comparison_rows
      print (repeated 115 "=" ++ "\n\n")
