-- ===== src/Windows/Udp.antt =====
-- The sockets of Winsock that the relay uses.
use disping.Common.{ℕ, String, Bool, Option, List}
use disping.Common.State.{State}

-- setsockopt with SO_RCVBUF, SO_SNDBUF, IP_TOS or SO_RCVTIMEO, and WSAIoctl with SIO_UDP_CONNRESET.
pub data SocketOption : Type 0 where
  rcvbuf sndbuf ip_tos rcvtimeo : ℕ → SocketOption
  udp_connreset : Bool → SocketOption

pub record UdpApi (W : Type 0) : Type 0 where
  -- `none` for INVALID_SOCKET
  pub socket : State W (Option ℕ)
  pub set_option : ℕ → SocketOption → State W Unit
  -- bind to INADDR_ANY and a port; false for SOCKET_ERROR
  pub bind : ℕ → ℕ → State W Bool
  -- the address that inet_pton stores, 0 where it stores none
  pub inet_pton : String → ℕ
  -- recvfrom with a buffer of the given size; empty where its result is not above 0
  pub recvfrom : ℕ → ℕ → State W (List ℕ)
  -- sendto with address, port and packet; `none` for SOCKET_ERROR
  pub sendto : ℕ → ℕ → ℕ → List ℕ → State W (Option ℕ)
  pub closesocket : ℕ → State W Unit
