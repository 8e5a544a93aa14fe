-- ===== src/Proxy.antt =====
-- src/udp_proxy.cpp: the life of the relay's worker thread, as steps of a state machine.
pub mod Life
pub mod Sockets
pub mod Relayed
use Prim.Native.String.{◌++◌}
use disping.Common.{
  ℕ, ◌+◌, ◌%◌, ◌^◌, ◌<◌, ◌≡◌, String, Bool, true, false, not, OperationResult, result,
  if◌then◌else◌,
}
use disping.Common.Text.{to_string}

-- Where the worker is: there is none, it has yet to open and bind its socket, it relays, it has returned.
pub data Worker : Type 0 where
  no_worker opening relaying returned : Worker

pub record UdpProxyStats : Type 0 where
  pub packets_forwarded : ℕ
  pub bytes_forwarded : ℕ

-- `m_running`, `m_workerThread.joinable()`, the worker and `m_stats`; `terminated` says that std::terminate was
-- called, which assigning to a joinable std::thread or destroying one does.
pub record UdpProxy : Type 0 where
  pub running : Bool
  pub joinable : Bool
  pub worker : Worker
  pub stats : UdpProxyStats
  pub terminated : Bool

abbrev pub no_stats : UdpProxyStats
no_stats = record { packets_forwarded = 0; bytes_forwarded = 0 }

abbrev pub new_proxy : UdpProxy
new_proxy = record {
  running = false;
  joinable = false;
  worker = no_worker;
  stats = no_stats;
  terminated = false;
}

-- `m_workerThread = std::thread(...)`.
abbrev pub spawn : UdpProxy → UdpProxy
spawn p =
    if p.joinable
    then record p { terminated = true }
    else record p { joinable = true; worker = opening }

unfoldable pub start : ℕ → String → ℕ → UdpProxy → OperationResult × UdpProxy
start listen_port remote_host remote_port p =
    if p.running then (result false "UDP Proxy is already active.", p) else (
      result true (
          "Started UDP Fast Relay on port "
          ++ to_string listen_port
          ++ " -> "
          ++ remote_host
          ++ ":"
          ++ to_string remote_port),
      spawn (record p { running = true; stats = no_stats }),
    )

-- The worker gives up, since `socket` or `bind` fails.
abbrev pub give_up : UdpProxy → UdpProxy
give_up p = record p { running = false; worker = returned }

-- One packet of which `sent > 0` bytes were relayed, with the wrap-around of uint64_t.
unfoldable pub forward : ℕ → UdpProxyStats → UdpProxyStats
forward sent s = record {
  packets_forwarded = (s.packets_forwarded + 1) % 2 ^ 64;
  bytes_forwarded = (s.bytes_forwarded + sent) % 2 ^ 64;
}

-- Stop up to the join: the flag is cleared.
abbrev pub clear : UdpProxy → UdpProxy
clear p = record p { running = false }

-- The join returns once the worker has.
abbrev pub joined : UdpProxy → UdpProxy
joined p = record p { joinable = false; worker = no_worker }

-- The destructor of a proxy that is not running: Stop does nothing, and a joinable thread is destroyed.
abbrev pub destroy_idle : UdpProxy → UdpProxy
destroy_idle p = if p.joinable then record p { terminated = true } else p

-- What can happen while the worker's socket opens and binds. A Stop runs to its end: the flag is cleared, the worker sees it and
-- returns, the join returns.
pub data Step : UdpProxy → UdpProxy → Type 0 where
  starts : (l : ℕ) (host : String) (r : ℕ) (p : UdpProxy) → Step p (start l host r p).1
  binds : (p : UdpProxy) → p.worker ≡ opening → Step p (record p { worker = relaying })
  forwards :
      (n : ℕ) (p : UdpProxy) → p.worker ≡ relaying → Step p (record p { stats = forward n p.stats })
  stops : (p : UdpProxy) → p.running ≡ true → Step p (joined (clear p))
  stops_idle : (p : UdpProxy) → p.running ≡ false → Step p p

pub data Steps : UdpProxy → UdpProxy → Type 0 where
  here : (p : UdpProxy) → Steps p p
  step : (p q r : UdpProxy) → Steps p q → Step q r → Steps p r
