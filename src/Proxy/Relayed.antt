-- ===== src/Proxy/Relayed.antt =====
-- src/udp_proxy.cpp: what the worker thread does with its socket and counts.
use disping.Common.{
  ℕ, zero, suc, ◌+◌, ◌%◌, ◌^◌, ◌<◌, ◌≡◌, refl, String, true, false, Option, none, some, List, [],
  ◌∷◌, length, Bool-cases, inl, inr, arith, ltb,
}
use mathlib.Core.Path.{ap₂}
use disping.Windows.Udp.{UdpApi, rcvbuf, sndbuf, ip_tos, rcvtimeo, udp_connreset}
use disping.Proxy.{UdpProxy, UdpProxyStats, relaying, give_up, forward}
use disping.Proxy.Sockets.{
  sent_on, bound, bind_listener, open_listener, pass_on, relay_round, relay_rounds, relay_on,
  run_worker,
}

abbrev pub total : List ℕ → ℕ
total [] = 0
total (n ∷ ns) = n + total ns

-- The two counters are numbers of 64 bits.
abbrev pub Counts : UdpProxyStats → Type 0
Counts s = (s.packets_forwarded < 2 ^ 64) × (s.bytes_forwarded < 2 ^ 64)

-- The counters after packets of which so many bytes each were relayed.
abbrev pub counted : List ℕ → UdpProxyStats → UdpProxyStats
counted sizes s = record {
  packets_forwarded = (s.packets_forwarded + length sizes) % 2 ^ 64;
  bytes_forwarded = (s.bytes_forwarded + total sizes) % 2 ^ 64;
}

counted-none : (s : UdpProxyStats) → Counts s → counted [] s ≡ s
counted-none s (packets, bytes) =
    ap₂ (λ k b. record { packets_forwarded = k; bytes_forwarded = b }) (omega arith) (omega arith)

counted-forward :
    (n : ℕ) (sizes : List ℕ) (s : UdpProxyStats)
    → counted (n ∷ sizes) s ≡ counted sizes (forward n s)
unfolding forward
counted-forward n sizes s =
    ap₂ (λ k b. record { packets_forwarded = k; bytes_forwarded = b }) (omega arith) (omega arith)

forward-Counts : (n : ℕ) (s : UdpProxyStats) → Counts (forward n s)
unfolding forward
forward-Counts n s = (omega arith, omega arith)

sent_on-suc :
    (p : UdpProxy) (n : ℕ) → sent_on p (some (suc n)) ≡ record p { stats = forward (suc n) p.stats }
unfolding sent_on
sent_on-suc p n = let more : ltb 0 (suc n) ≡ true = ground arith in rw more refl

module _ {W : Type 0} (udp : UdpApi W) where
  open udp use {socket, set_option, bind, inet_pton, recvfrom, sendto, closesocket}

  -- The rounds of a worker, from one world to another, with the results of `sendto` that are above 0.
  pub data Rounds (sock address port : ℕ) : ℕ → W → List ℕ → W → Type 0 where
    over : (w : W) → Rounds sock address port 0 w [] w
    silent :
        (r : ℕ) (w u : W) (sizes : List ℕ)
        → (recvfrom sock 65536 w).0 ≡ []
        → Rounds sock address port r (recvfrom sock 65536 w).1 sizes u
        → Rounds sock address port (suc r) w sizes u
    lost :
        (r : ℕ) (w u : W) (sizes : List ℕ) (byte : ℕ) (packet : List ℕ)
        → (recvfrom sock 65536 w).0 ≡ byte ∷ packet
        → (sendto sock address port (byte ∷ packet) (recvfrom sock 65536 w).1).0 ≡ none
        → Rounds sock address port r
            (sendto sock address port (byte ∷ packet) (recvfrom sock 65536 w).1).1
            sizes
            u
        → Rounds sock address port (suc r) w sizes u
    nothing_sent :
        (r : ℕ) (w u : W) (sizes : List ℕ) (byte : ℕ) (packet : List ℕ)
        → (recvfrom sock 65536 w).0 ≡ byte ∷ packet
        → (sendto sock address port (byte ∷ packet) (recvfrom sock 65536 w).1).0 ≡ some 0
        → Rounds sock address port r
            (sendto sock address port (byte ∷ packet) (recvfrom sock 65536 w).1).1
            sizes
            u
        → Rounds sock address port (suc r) w sizes u
    relayed :
        (r n : ℕ) (w u : W) (sizes : List ℕ) (byte : ℕ) (packet : List ℕ)
        → (recvfrom sock 65536 w).0 ≡ byte ∷ packet
        → (sendto sock address port (byte ∷ packet) (recvfrom sock 65536 w).1).0 ≡ some (suc n)
        → Rounds sock address port r
            (sendto sock address port (byte ∷ packet) (recvfrom sock 65536 w).1).1
            sizes
            u
        → Rounds sock address port (suc r) w (suc n ∷ sizes) u

  -- A run of rounds that leaves the proxy and the world as given.
  pub record Ran (sock address port rounds : ℕ) (p : UdpProxy) (w : W) (q : UdpProxy) (u : W)
      : Type 0 where
    pub sizes : List ℕ
    pub trace : Rounds sock address port rounds w sizes u
    pub counters : q ≡ record p { stats = counted sizes p.stats }

  module _ (sock address port : ℕ) where
    sent-Ran :
        (r : ℕ) (p : UdpProxy) (w : W) (byte : ℕ) (packet : List ℕ) (sent : Option ℕ)
        → Counts p.stats
        → (recvfrom sock 65536 w).0 ≡ byte ∷ packet
        → (sendto sock address port (byte ∷ packet) (recvfrom sock 65536 w).1).0 ≡ sent
        → let v = (sendto sock address port (byte ∷ packet) (recvfrom sock 65536 w).1).1 in
          ((q : UdpProxy)
            → Counts q.stats
            → let (q', u) = relay_rounds udp r sock address port q v in
              Ran sock address port r q v q' u)
          → let (q', u) = relay_rounds udp r sock address port (sent_on p sent) v in
            Ran sock address port (suc r) p w q' u
    unfolding sent_on
    sent-Ran r p w byte packet none h got e rest =
        let ran = rest p h in
        record {
          sizes = ran.sizes;
          trace = lost r w _ ran.sizes byte packet got e ran.trace;
          counters = ran.counters;
        }
    sent-Ran r p w byte packet (some zero) h got e rest =
        let ran = rest p h in
        record {
          sizes = ran.sizes;
          trace = nothing_sent r w _ ran.sizes byte packet got e ran.trace;
          counters = ran.counters;
        }
    sent-Ran r p w byte packet (some (suc n)) h got e rest =
        let ran =
          rest (record p { stats = forward (suc n) p.stats }) (forward-Counts (suc n) p.stats) in
        rw (sent_on-suc p n) record {
          sizes = suc n ∷ ran.sizes;
          trace = relayed r n w _ ran.sizes byte packet got e ran.trace;
          counters = rw (counted-forward (suc n) ran.sizes p.stats) ran.counters;
        }

    round-Ran :
        (r : ℕ) (p : UdpProxy) (w : W) (packet : List ℕ)
        → Counts p.stats
        → (recvfrom sock 65536 w).0 ≡ packet
        → ((q : UdpProxy) (v : W)
            → Counts q.stats
            → let (q', u) = relay_rounds udp r sock address port q v in
              Ran sock address port r q v q' u)
        → let (q, v) = pass_on udp sock address port p packet (recvfrom sock 65536 w).1 in
          let (q', u) = relay_rounds udp r sock address port q v in
          Ran sock address port (suc r) p w q' u
    unfolding pass_on
    round-Ran r p w [] h got rest =
        let ran = rest p (recvfrom sock 65536 w).1 h in
        record {
          sizes = ran.sizes;
          trace = silent r w _ ran.sizes got ran.trace;
          counters = ran.counters;
        }
    round-Ran r p w (byte ∷ packet) h got rest =
        sent-Ran r p w byte packet _ h got refl λ q. rest q _

    rounds-Ran :
        (r : ℕ) (p : UdpProxy) (w : W)
        → Counts p.stats
        → let (q, u) = relay_rounds udp r sock address port p w in Ran sock address port r p w q u
    unfolding relay_rounds relay_round
    rounds-Ran zero p w h = record {
      sizes = [];
      trace = over w;
      counters = rw (counted-none p.stats h) refl;
    }
    rounds-Ran (suc r) p w h = round-Ran r p w _ h refl λ q v. rounds-Ran r q v

  -- The four options of a socket that has been opened.
  abbrev pub configured : ℕ → W → W
  configured sock w =
      let w1 = (set_option sock (rcvbuf 4194304) w).1 in
      let w2 = (set_option sock (sndbuf 4194304) w1).1 in
      let w3 = (set_option sock (ip_tos 184) w2).1 in (set_option sock (udp_connreset false) w3).1

  -- What a worker has done: it has no socket, its socket does not bind and is closed, or it
  -- has relayed through the socket, whose receiving times out after 100 ms, and closed it.
  pub data Worked (rounds listen_port : ℕ) (host : String) (port : ℕ) (p : UdpProxy) (w : W)
      : UdpProxy → W → Type 0 where
    no_socket :
        (socket w).0 ≡ none → Worked rounds listen_port host port p w (give_up p) (socket w).1
    not_bound :
        (sock : ℕ)
        → (socket w).0 ≡ some sock
        → (bind sock listen_port (configured sock (socket w).1)).0 ≡ false
        → Worked rounds listen_port host port p w
            (give_up p)
            (closesocket sock (bind sock listen_port (configured sock (socket w).1)).1).1
    has_relayed :
        (sock : ℕ) (q : UdpProxy) (u : W)
        → (socket w).0 ≡ some sock
        → (bind sock listen_port (configured sock (socket w).1)).0 ≡ true
        → Ran sock
            (inet_pton host)
            port
            rounds
            (record p { worker = relaying })
            (set_option sock
              (rcvtimeo 100)
              (bind sock listen_port (configured sock (socket w).1)).1).1
            q
            u
        → Worked rounds listen_port host port p w q (closesocket sock u).1

  opened-Worked :
      (rounds listen_port : ℕ) (host : String) (port : ℕ) (p : UdpProxy) (w : W) (opened : Option ℕ)
      → Counts p.stats
      → (socket w).0 ≡ opened
      → let (sock, v) = bind_listener udp listen_port opened (socket w).1 in
        let (q, u) = relay_on udp rounds host port p sock v in
        Worked rounds listen_port host port p w q u
  unfolding bind_listener relay_on
  opened-Worked rounds listen_port host port p w none h e = no_socket e
  opened-Worked rounds listen_port host port p w (some sock) h e =
      let v = configured sock (socket w).1 in
      elim (Bool-cases (bind sock listen_port v).0) [
        | inl ok ↦
            let v' = (set_option sock (rcvtimeo 100) (bind sock listen_port v).1).1 in
            rw ok (
              has_relayed sock _ _ e ok
                (rounds-Ran sock (inet_pton host) port rounds (bound p) v' h))
        | inr fails ↦ rw fails (not_bound sock e fails)
      ]

  -- From 64-bit counters, the relay's thread gives up, the flag cleared, if socket fails,
  -- and, with the socket closed, if bind fails after the four options; otherwise it relays:
  -- the rounds are a run in which every packet received, and nothing else, is sent to the
  -- remote address, the packets counted are exactly those whose sendto gave a number above 0,
  -- the bytes the sum of these, both modulo 2^64, and the socket is closed at the end.
  pub run_worker-Worked :
      (rounds listen_port : ℕ) (host : String) (port : ℕ) (p : UdpProxy) (w : W)
      → Counts p.stats
      → let (q, u) = run_worker udp rounds listen_port host port p w in
        Worked rounds listen_port host port p w q u
  unfolding run_worker open_listener
  run_worker-Worked rounds listen_port host port p w h =
      opened-Worked rounds listen_port host port p w _ h refl
