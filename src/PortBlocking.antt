-- ===== src/PortBlocking.antt =====
-- The ports that a server does not answer (picoquic/port_blocking.c). The numbers of the address families
-- and ntohs belong to the operating system, and are parameters.
mod Listed
mod Examples
use fair_queuing_aware_conge.Common.{
  ℕ, ◌+◌, ◌-◌, ◌%◌, ◌^◌, Bool, true, false, not, ◌&&◌, List, [], ◌∷◌, ◌==◌, leb, if◌then◌else◌,
}

-- picoquic_blocked_port_list
abbrev pub blocked_port_list : List ℕ
blocked_port_list =
    27015 ∷ 20800 ∷ 11211 ∷ 5353 ∷ 1900 ∷ 520 ∷ 500 ∷ 389 ∷ 161 ∷ 138 ∷ 137 ∷ 123 ∷ 111 ∷ 53 ∷ 19
    ∷ 17 ∷ 0 ∷ []

-- The loop of picoquic_check_port_blocked, which ends at the first port that is below the given one.
unfoldable pub check_ports : ℕ → List ℕ → Bool
check_ports port [] = false
check_ports port (p ∷ ps) =
    let rest = check_ports port ps in
    if leb port p then (if port == p then true else rest) else false

unfoldable pub check_port_blocked : ℕ → Bool
check_port_blocked port = check_ports port blocked_port_list

-- The field of picoquic_quic_t
pub record Quic : Type 0 where
  pub is_port_blocking_disabled : Bool

-- The field has one bit, which is all that it takes of the int.
unfoldable pub disable_port_blocking : Quic → ℕ → Quic
disable_port_blocking quic is_port_blocking_disabled = record quic {
  is_port_blocking_disabled = is_port_blocking_disabled % 2 == 1;
}

-- The fields of a socket address that are read; the port is in network order.
pub record SockAddr : Type 0 where
  pub sa_family : ℕ
  pub sin_port : ℕ
  pub sin6_port : ℕ

module _ (af_inet af_inet6 : ℕ) (ntohs : ℕ → ℕ) where
  unfoldable pub check_addr_blocked : SockAddr → Bool
  check_addr_blocked addr_from =
      let port =
        if addr_from.sa_family == af_inet
        then addr_from.sin_port
        else (if addr_from.sa_family == af_inet6 then addr_from.sin6_port else 2 ^ 16 - 1) in
      check_port_blocked (ntohs port)

  -- Whether picoquic_incoming_packet_ex leaves a packet alone.
  unfoldable pub is_ignored_from : Quic → SockAddr → Bool
  is_ignored_from quic addr_from =
      not quic.is_port_blocking_disabled && check_addr_blocked addr_from
