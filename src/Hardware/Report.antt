-- ===== src/Hardware/Report.antt =====
-- PrintHardwareReport of src/hardware_detector.cpp, over a console; how bytes and hexadecimal numbers are shown are parameters.
use Prim.Native.String.{◌++◌}
use disping.Common.{ℕ, String, Bool, List, if◌then◌else◌}
use disping.Common.State.{State, ◌>>◌}
use disping.Common.Text.{to_string}
use disping.Windows.Console.{ConsoleApi}
use disping.Console.{
  reset, bold, yellow, bright_cyan, bright_green, bright_yellow, coloured, print_header,
}
use disping.Hardware.{HardwareProfile, get_isa_tier_description}

-- A label where the flag is set.
abbrev flagged : Bool → String → String
flagged has label = if has then label else ""

unfoldable pub architecture_text : HardwareProfile → String
architecture_text profile =
    if profile.is_hybrid
    then coloured bright_green (
        " [Intel Hybrid: "
        ++ (to_string profile.p_core_count
            ++ (" P-Cores + " ++ (to_string profile.e_core_count ++ " E-Cores]"))))
    else if profile.is_amd_x3d
    then coloured bright_green " [AMD 3D V-Cache (X3D) Gaming Architecture]"
    else " [Standard Unified Multi-Core]"

unfoldable pub simd_text : HardwareProfile → String
simd_text profile =
    flagged profile.has_avx512 "[AVX-512] "
    ++ (flagged profile.has_avx2 "[AVX2] "
        ++ (flagged profile.has_avx "[AVX] "
            ++ (flagged profile.has_fma3 "[FMA3] "
                ++ (flagged profile.has_sse42 "[SSE4.2] "
                    ++ (flagged profile.has_rdtscp "[RDTSCP] "
                        ++ flagged profile.has_crc32 "[HW-CRC32] ")))))

unfoldable pub ram_tier_text : HardwareProfile → String
ram_tier_text profile =
    if profile.is_low_ram
    then coloured yellow " [Бюджетный профиль <= 8GB: приоритет частой выгрузке кэша]"
    else if profile.is_high_ram
    then coloured bright_green
        " [Высокопроизводительный профиль >= 16GB: блокировка ядра в ОЗУ (DisablePagingExecutive)]"
    else ""

unfoldable pub strategy_text : HardwareProfile → String
strategy_text profile =
    if profile.is_hybrid
    then "Игры зафиксированы строго на P-Cores. E-Cores и Core 0 изолированы от игры!"
    else if profile.is_amd_x3d
    then "Игры привязаны к пулу 3D V-Cache CCD для максимального FPS!"
    else "Ядро 0 изолировано под прерывания ОС (DPC/ISR). Игра использует остальные ядра!"

module _ {W : Type 0} (console : ConsoleApi W) (bytes : List ℕ → String) (hex : ℕ → String) where
  open console use {print}

  unfoldable pub print_processor : HardwareProfile → State W Unit
  print_processor profile = do
    print ("  " ++ (bold ++ ("ПРОЦЕССОР (CPU):" ++ (reset ++ "\n"))))
    print ("  * Модель:            " ++ (coloured bright_cyan (bytes profile.cpu_brand) ++ "\n"))
    print (
        "  * Архитектура:       "
        ++ (bytes profile.cpu_vendor_str ++ (architecture_text profile ++ "\n")))
    print (
        "  * Ядра / Потоки:     "
        ++ (to_string profile.physical_cores
            ++ (" физических ядер / "
                ++ (to_string profile.logical_cores ++ " логических потоков\n"))))
    print (
        "  * Набор инструкций:  "
        ++ (coloured bright_yellow (get_isa_tier_description profile) ++ "\n"))
    print ("  * Поддержка SIMD:    " ++ (simd_text profile ++ "\n"))

  unfoldable pub print_hardware_report : HardwareProfile → State W Unit
  print_hardware_report profile = do
    print_header console "ПРОФИЛЬ ОБОРУДОВАНИЯ И АДАПТИВНОЙ ОПТИМИЗАЦИИ (UNIVERSAL ENGINE)"
    print_processor profile
    print ("\n  " ++ (bold ++ ("ОПЕРАТИВНАЯ ПАМЯТЬ (RAM):" ++ (reset ++ "\n"))))
    print (
        "  * Объём памяти:      "
        ++ (to_string profile.total_ram_gb ++ (" GB RAM" ++ (ram_tier_text profile ++ "\n"))))
    print ("\n  " ++ (bold ++ ("АДАПТИВНАЯ АФФИНИТИ-ПРИВЯЗКА ДЛЯ ИГР:" ++ (reset ++ "\n"))))
    print ("  * Маска привязки:    0x" ++ (hex profile.optimal_game_affinity_mask ++ "\n"))
    print ("  * Стратегия:         " ++ (coloured bright_green (strategy_text profile) ++ "\n"))
    print "  ---------------------------------------------------------------------------------\n\n"
