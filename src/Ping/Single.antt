-- ===== src/Ping/Single.antt =====
-- PingSingle of src/ping_monitor.cpp. The checksum of the packet, whose result is not used, is left out.
use disping.Common.{ℕ, String, Option, none, some, ◌==◌, if◌then◌else◌}
use disping.Common.State.{State, ◌>>=◌, ◌>>◌, pure}
use disping.Windows.Icmp.{IcmpApi}
use disping.Ping.{MonitorApi}

-- IcmpSendEcho2 with 32 bytes and a time to live of 64: handle, address and timeout, the number of replies and the status of
-- the first; and the clock.
pub record EchoApi (W D : Type 0) : Type 0 where
  pub icmp_send_echo2 : ℕ → ℕ → ℕ → State W (ℕ × ℕ)
  pub now : State W D
  -- `duration<double, std::milli>(t2 - t1)`, and -1.0
  pub milliseconds : D → D → D
  pub no_answer : D

module _ {W D : Type 0} (icmp : IcmpApi W) (echo : EchoApi W D) where
  unfoldable pub resolve_host : String → State W (Option ℕ)
  resolve_host target_host =
      let ipaddr = icmp.inet_addr target_host in
      if ipaddr == 0xFFFF_FFFF then icmp.gethostbyname target_host else pure (some ipaddr)

  -- The time of the echo if a reply with IP_SUCCESS has come.
  abbrev answer_of : ℕ → ℕ → D → D
  answer_of replies status rtt_ms =
      if replies == 0 then echo.no_answer else if status == 0 then rtt_ms else echo.no_answer

  unfoldable pub timed_echo : ℕ → ℕ → Option ℕ → State W D
  timed_echo handle timeout_ms none = do icmp.icmp_close_handle handle; pure echo.no_answer
  timed_echo handle timeout_ms (some ipaddr) = do
    t1 ← echo.now
    (replies, status) ← echo.icmp_send_echo2 handle ipaddr timeout_ms
    t2 ← echo.now
    icmp.icmp_close_handle handle
    pure (answer_of replies status (echo.milliseconds t1 t2))

  unfoldable pub ping_opened : String → ℕ → Option ℕ → State W D
  ping_opened target_host timeout_ms none = pure echo.no_answer
  ping_opened target_host timeout_ms (some handle) = do
    address ← resolve_host target_host
    timed_echo handle timeout_ms address

  unfoldable pub ping_single : String → ℕ → State W D
  ping_single target_host timeout_ms = do
    file ← icmp.icmp_create_file
    ping_opened target_host timeout_ms file

  -- A monitor whose pings are these.
  abbrev pub pinging : MonitorApi W D → MonitorApi W D
  pinging api = record api { ping_single = ping_single }
