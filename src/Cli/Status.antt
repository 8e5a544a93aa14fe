-- ===== src/Cli/Status.antt =====
-- The status screen of src/main.cpp, which the argument --status and the key S show. Many of its lines are fixed texts.
use Prim.Native.String.{◌++◌}
use disping.Common.{Bool, if◌then◌else◌}
use disping.Common.State.{State, ◌>>=◌, ◌>>◌}
use disping.Common.Text.{to_string}
use disping.Console.{print_header}
use disping.Hardware.{HardwareProfile, get_isa_tier_description}
use disping.Network.{are_tweaks_applied}
use disping.Vpn.{is_vpn_or_dpi_bypass_active}
use disping.Latency.Daemon.{query_timer_resolution}
use disping.Benchmark.Metrics.{resolution_of}
use disping.Program.{detected, Program}
use disping.Cli.Boost.{print}

module _ {W D : Type 0} (p : Program W D) where
  open p use {parts, texts}

  unfoldable pub print_rights : Bool → Bool → State W Unit
  print_rights is_admin vpn_shield = do
    print p "  [ПРАВА И БЕЗОПАСНОСТЬ]\n"
    print p (
        "  * Права процесса:       "
        ++ ((if is_admin then "[ADMINISTRATOR - ПОЛНЫЙ ДОСТУП]" else "[USER - ОГРАНИЧЕННЫЙ]")
            ++ "\n"))
    print p (
        "  * Щит VPN / DPI:         "
        ++ ((if vpn_shield
              then "[АКТИВЕН И ЗАЩИЩЁН (Incy/Happ/Zapret/Wintun)]"
              else "[ГОТОВ К ЗАЩИТЕ]")
            ++ "\n\n"))

  unfoldable pub print_network : Bool → State W Unit
  print_network net_tweaked = do
    print p "  [СЕТЕВЫЕ ТВИТЫ И СТЕК TCP/IP]\n"
    print p (
        "  * Статус оптимизаций:    "
        ++ ((if net_tweaked then "[АКТИВНЫ (Максимальный приоритет)]" else "[СТАНДАРТНЫЕ WINDOWS]")
            ++ "\n"))
    print p "  * Алгоритм Нагла:        ОТКЛЮЧЕН (TCPNoDelay = 1 на всех интерфейсах)\n"
    print p "  * Частота подтверждений: МГНОВЕННАЯ (TcpAckFrequency = 1, задержка 0 мс)\n"
    print p "  * Сетевой троттлинг:     ОТКЛЮЧЕН (NetworkThrottlingIndex = 0xFFFFFFFF)\n"
    print p "  * Отзывчивость игр:      100% (SystemResponsiveness = 0)\n"
    print p "  * Пул портов сокетов:    65534 (MaxUserPort = 0xFFFE)\n\n"

  unfoldable pub print_timer : D → State W Unit
  print_timer curr = do
    print p "  [СИСТЕМНЫЙ ТАЙМЕР И MMCSS]\n"
    print p ("  * Текущий таймер ОС:     " ++ (texts.fixed curr 3 ++ " ms "))
    print p (
        if texts.is_ultra curr
        then "(УЛЬТРА-ВЫСОКОЕ РАЗРЕШЕНИЕ ~2000 Hz, Минимальный инпут-лаг!)\n"
        else if texts.is_raised curr
        then "(Повышенное разрешение 1000 Hz)\n"
        else "(Стандартное энергосберегающее разрешение 64 Hz)\n")
    print p
        "  * MMCSS профиль Games:   АКТИВЕН (GPU Priority = 8, Priority = 6, High Scheduling)\n\n"

  unfoldable pub print_memory : HardwareProfile → State W Unit
  print_memory prof = do
    print p "  [ПОДСИСТЕМА ПАМЯТИ И ЖЕЛЕЗО]\n"
    print p ("  * Процессор:             " ++ (texts.bytes prof.cpu_brand ++ "\n"))
    print p ("  * Архитектура:           " ++ (get_isa_tier_description prof ++ "\n"))
    print p (
        "  * Ядра и потоки:         "
        ++ (to_string prof.physical_cores
            ++ (" физ. ядер / " ++ (to_string prof.logical_cores ++ " логических потоков\n"))))
    print p (
        "  * Маска аффинити игр:    0x"
        ++ (texts.hex prof.optimal_game_affinity_mask ++ " (Ядро 0 свободно под прерывания ОС)\n"))
    print p (
        "  * Память ОЗУ:            "
        ++ (to_string prof.total_ram_gb
            ++ (" GB ("
                ++ ((if prof.is_high_ram
                      then "Kernel & Drivers заблокированы в RAM"
                      else "Баланс подкачки")
                    ++ ")\n\n"))))

  unfoldable pub print_wifi : State W Unit
  print_wifi = do
    print p "  [WI-FI И ЗАЩИТА ОТ СПАЙКОВ ЗАДЕРЖКИ]\n"
    print p "  * Сканирование каналов:  ЗАБЛОКИРОВАНО (AutoConfig scan отключен, пинг стабилен)\n"
    print p "  * Служба геолокации:     ОТКЛЮЧЕНА (lfsvc остановлен, нет спайков BSSID 200ms+)\n"
    print p "  * Чувствительность роума:ОТКЛЮЧЕНА (RegRoamLevel=1, RegROAMSensitiveLevel=0)\n"
    print p "  * Энергосбережение Wi-Fi:ОТКЛЮЧЕНО (LpsEn=0, IpsEn=0, PCIe L1=0)\n\n"

  unfoldable pub show_status : State W Unit
  show_status = do
    print_header p.console "DISPING: ТЕКУЩИЙ СТАТУС ОПТИМИЗАЦИЙ В СИСТЕМЕ"
    is_admin ← parts.store.is_running_as_admin
    resolution ← query_timer_resolution parts.nt_query
    net_tweaked ← are_tweaks_applied parts.store
    vpn_shield ← is_vpn_or_dpi_bypass_active p.api
    prof ← detected p
    print_rights is_admin vpn_shield
    print_network net_tweaked
    print_timer (resolution_of parts.bench resolution)
    print_memory prof
    print_wifi
