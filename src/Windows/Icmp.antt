-- ===== src/Windows/Icmp.antt =====
-- The functions of iphlpapi and of Winsock that src/mtu_optimizer.cpp calls.
use disping.Common.{ℕ, String, Option}
use disping.Common.State.{State}

pub record IcmpApi (W : Type 0) : Type 0 where
  -- `none` stands for INVALID_HANDLE_VALUE
  pub icmp_create_file : State W (Option ℕ)
  pub icmp_close_handle : ℕ → State W Unit
  -- the address in network order, 0xFFFFFFFF for INADDR_NONE
  pub inet_addr : String → ℕ
  -- the first address of the host, if there is one
  pub gethostbyname : String → State W (Option ℕ)
  -- an echo of the given size that must not be fragmented, and the status of its reply: the number of replies and the
  -- status of the first
  pub icmp_send_echo : ℕ → ℕ → ℕ → State W (ℕ × ℕ)
