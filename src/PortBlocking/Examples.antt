-- ===== src/PortBlocking/Examples.antt =====
-- Blocked ports (picoquic/port_blocking.c): runs, and the theorem at the port of DNS.
use fair_queuing_aware_conge.Common.{◌≡◌, refl, true, false}
use fair_queuing_aware_conge.PortBlocking.{
  blocked_port_list, check_ports, check_port_blocked, SockAddr, check_addr_blocked,
  disable_port_blocking, is_ignored_from,
}
use fair_queuing_aware_conge.PortBlocking.Listed.{is_listed, check_port_blocked-is_listed}

https_run : check_port_blocked 443 ≡ false
unfolding check_port_blocked check_ports
https_run = refl

abbrev dns_addr : SockAddr
dns_addr = record { sa_family = 10; sin_port = 443; sin6_port = 53 }

dns_run : check_addr_blocked 2 10 (λ port. port) dns_addr ≡ true
unfolding check_addr_blocked check_port_blocked check_ports
dns_run = refl

-- The same address once port blocking is disabled
disabled_run :
    is_ignored_from 2 10
      (λ port. port)
      (disable_port_blocking (record { is_port_blocking_disabled = false }) 1)
      dns_addr
    ≡ false
unfolding is_ignored_from disable_port_blocking
disabled_run = refl

check_port_blocked-is_listed_example : check_port_blocked 53 ≡ is_listed 53 blocked_port_list
check_port_blocked-is_listed_example = check_port_blocked-is_listed 53
