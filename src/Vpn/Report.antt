-- ===== src/Vpn/Report.antt =====
-- PrintVpnShieldStatus of src/vpn_guard.cpp, over a console.
use Prim.Native.String.{◌++◌}
use disping.Common.{String, Bool, false, not, ◌&&◌, ◌||◌, List, [], ◌∷◌, if◌then◌else◌}
use disping.Common.State.{State, ◌>>=◌, ◌>>◌, pure}
use disping.Common.Text.{codes, lower, contains}
use disping.Windows.System.{SystemApi}
use disping.Windows.Console.{ConsoleApi}
use disping.Console.{reset, bold, red, cyan, bright_green, bright_yellow, coloured, print_header}
use disping.Vpn.{VpnDetectionReport, scan_vpn_status}

unfoldable pub has_zapret : List String → Bool
unfolding contains lower
has_zapret [] = false
has_zapret (p ∷ rest) =
    let lp = lower (codes p) in
    contains (codes "winws") lp
    || contains (codes "goodbyedpi") lp
    || contains (codes "zapret") lp
    || has_zapret rest

unfoldable pub has_vpn : List String → Bool
unfolding contains lower
has_vpn [] = false
has_vpn (p ∷ rest) =
    let lp = lower (codes p) in
    contains (codes "incy") lp
    || contains (codes "happ") lp
    || contains (codes "sing-box") lp
    || contains (codes "wireguard") lp
    || has_vpn rest

-- The conflict that is warned of: a DPI bypass beside a VPN.
unfoldable pub has_conflict : VpnDetectionReport → Bool
unfolding has_zapret has_vpn
has_conflict report =
    has_zapret report.detected_processes
    && (has_vpn report.detected_processes || report.tun_adapter_detected)

module _ {W : Type 0} (console : ConsoleApi W) where
  open console use {print}

  -- A line for each entry, with what is said of it.
  unfoldable pub print_guarded : String → List String → State W Unit
  print_guarded promise [] = pure tt
  print_guarded promise (x ∷ list) = do
    print ("    - " ++ (coloured cyan x ++ (promise ++ "\n")))
    print_guarded promise list

  unfoldable pub print_found : Bool → String → String → List String → State W Unit
  print_found detected heading promise list =
      if detected then (do print heading; print_guarded promise list) else pure tt

  unfoldable pub print_conflict : VpnDetectionReport → State W Unit
  print_conflict report = if not (has_conflict report) then pure tt else do
    print ("\n" ++ (red ++ (bold ++ ("  [!ВНИМАНИЕ! КРИТИЧЕСКИЙ КОНФЛИКТ В СИСТЕМЕ]\n" ++ reset))))
    print (
        bright_yellow ++ "  Одновременно запущены Zapret (winws.exe) И VPN-клиент (Incy / Happ)!\n")
    print "  * Почему ломается YouTube: Zapret расщепляет HTTPS-пакеты (hostfakesplit),\n"
    print "    а VPN шифрует эти искажённые пакеты и отправляет на сервер YouTube.\n"
    print
        "    Серверы Google отклоняют повреждённое TLS-рукопожатие (SSL Error 35: нет интернета).\n"
    print "  * РЕШЕНИЕ: Закройте Zapret (winws.exe), когда включен VPN (Incy/Happ)!\n"
    print ("    Либо отключите VPN, если хотите использовать чистый Zapret.\n" ++ (reset ++ "\n"))

  unfoldable pub print_shield : VpnDetectionReport → State W Unit
  print_shield report = do
    print (
        bright_green
        ++ (bold
            ++ ("[OK] ЩИТ СОВМЕСТИМОСТИ АКТИВЕН! DisPing автоматически защищает ваши VPN и DPI-сервисы:\n"
                ++ reset)))
    print_found report.vpn_process_detected "  * Обнаружены запущенные процессы VPN/DPI:\n"
        " [ЗАЩИЩЁН: память и поток не сбрасываются]" report.detected_processes
    print_found report.tun_adapter_detected "  * Обнаружены виртуальные TUN/Wintun туннели:\n"
        " [ЗАЩИЩЁН: аппаратные твики и MTU не трогаются]" report.detected_adapters
    print_found report.fake_ip_dns_detected "  * Обнаружен защищённый Fake-IP / Proxy DNS:\n"
        " [ЗАЩИЩЁН: авто-переключение DNS отключено]" report.detected_dns_servers
    print_conflict report
    print (
        "\n"
        ++ (bright_yellow
            ++ "ГАРАНТИЯ БЕЗОПАСНОСТИ: DisPing не перезаписывает DNS прокси, не сбрасывает память WinDivert\n"))
    print (
        "и не сбивает виртуальные адаптеры Wintun. Incy, Happ и Zapret защищены от конфликтов с оптимизатором!\n"
        ++ (reset ++ "\n"))

  unfoldable pub print_vpn_shield_status : SystemApi W → State W Unit
  print_vpn_shield_status api = do
    report ← scan_vpn_status api
    print_header console "ЩИТ СОВМЕСТИМОСТИ DISPING (VPN, ZAPRET, INCY, HAPP)"
    if not report.vpn_process_detected
          && (not report.tun_adapter_detected && not report.fake_ip_dns_detected)
        then print (
            bright_green
            ++ ("[+] VPN / DPI Bypass не обнаружены. Система работает в стандартном режиме.\n"
                ++ reset))
        else print_shield report
