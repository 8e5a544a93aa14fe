-- ===== src/Windows/Dns.antt =====
-- The socket calls of src/dns_optimizer.cpp, and arithmetic on the latencies, which are of type `double`.
use disping.Common.{ℕ, String, Bool, Option, List}
use disping.Common.State.{State}

pub record DnsApi (W D : Type 0) : Type 0 where
  -- socket with its timeouts and the address of the server; `none` for INVALID_SOCKET
  pub open_socket : String → State W (Option ℕ)
  -- the clock in milliseconds
  pub clock : State W D
  -- did `sendto` send anything, did `recvfrom` receive anything?
  pub send : ℕ → List ℕ → State W Bool
  pub receive : ℕ → State W Bool
  pub close_socket : ℕ → State W Unit
  pub sleep : ℕ → State W Unit

pub record Latencies (D : Type 0) : Type 0 where
  pub zero_ms : D
  -- 9999.0 and 999.0
  pub failed : D
  pub unreachable : D
  -- `lat < 9000.0`
  pub is_valid : D → Bool
  pub plus : D → D → D
  pub minus : D → D → D
  pub over : D → ℕ → D
  -- the latency with two decimals
  pub fixed : D → String
