-- ===== src/Proxy/Sockets.antt =====
-- The worker thread of src/udp_proxy.cpp over the sockets of Windows. The copy of the packet and the clearing of the buffer,
-- which are assembly routines, and the average latency are left out.
use disping.Common.{
  ℕ, zero, suc, ◌*◌, String, false, Option, none, some, List, [], ◌∷◌, ltb, if◌then◌else◌,
}
use disping.Common.State.{State, ◌>>=◌, ◌>>◌, pure}
use disping.Windows.Udp.{UdpApi, rcvbuf, sndbuf, ip_tos, rcvtimeo, udp_connreset}
use disping.Proxy.{UdpProxy, relaying, give_up, forward}

-- `if (sent > 0)` counts the packet.
unfoldable pub sent_on : UdpProxy → Option ℕ → UdpProxy
sent_on p none = p
sent_on p (some sent) = if ltb 0 sent then record p { stats = forward sent p.stats } else p

-- `bind` has succeeded.
abbrev pub bound : UdpProxy → UdpProxy
bound p = record p { worker = relaying }

module _ {W : Type 0} (udp : UdpApi W) where
  -- The options and the port of the listening socket, closed again where it does not bind.
  unfoldable pub bind_listener : ℕ → Option ℕ → State W (Option ℕ)
  bind_listener listen_port none = pure none
  bind_listener listen_port (some sock) = do
    udp.set_option sock (rcvbuf (4 * 1024 * 1024))
    udp.set_option sock (sndbuf (4 * 1024 * 1024))
    udp.set_option sock (ip_tos 0xB8)
    udp.set_option sock (udp_connreset false)
    ok ← udp.bind sock listen_port
    if ok
        then (do udp.set_option sock (rcvtimeo 100); pure (some sock))
        else do udp.closesocket sock; pure none

  unfoldable pub open_listener : ℕ → State W (Option ℕ)
  open_listener listen_port = do opened ← udp.socket; bind_listener listen_port opened

  -- A packet that was received is sent to the remote address.
  unfoldable pub pass_on : ℕ → ℕ → ℕ → UdpProxy → List ℕ → State W UdpProxy
  pass_on sock address remote_port p [] = pure p
  pass_on sock address remote_port p (byte ∷ packet) = do
    sent ← udp.sendto sock address remote_port (byte ∷ packet)
    pure (sent_on p sent)

  -- One round of the loop.
  unfoldable pub relay_round : ℕ → ℕ → ℕ → UdpProxy → State W UdpProxy
  relay_round sock address remote_port p = do
    packet ← udp.recvfrom sock 65536
    pass_on sock address remote_port p packet

  -- The rounds that are made until Stop clears the flag.
  unfoldable pub relay_rounds : ℕ → ℕ → ℕ → ℕ → UdpProxy → State W UdpProxy
  relay_rounds zero sock address remote_port p = pure p
  relay_rounds (suc rounds) sock address remote_port p = do
    p' ← relay_round sock address remote_port p
    relay_rounds rounds sock address remote_port p'

  unfoldable pub relay_on : ℕ → String → ℕ → UdpProxy → Option ℕ → State W UdpProxy
  relay_on rounds remote_host remote_port p none = pure (give_up p)
  relay_on rounds remote_host remote_port p (some sock) = do
    p' ← relay_rounds rounds sock (udp.inet_pton remote_host) remote_port (bound p)
    udp.closesocket sock
    pure p'

  -- The whole thread. Its return after the rounds is part of the Stop that clears the flag.
  unfoldable pub run_worker : ℕ → ℕ → String → ℕ → UdpProxy → State W UdpProxy
  run_worker rounds listen_port remote_host remote_port p = do
    sock ← open_listener listen_port
    relay_on rounds remote_host remote_port p sock
