-- ===== src/Sockets.antt =====
-- include/SocketsOps.h, src/SocketsOps.cpp, include/Socket.h, src/Socket.cpp, include/InetAddress.h,
-- src/InetAddress.cpp, for a build without VALGRIND on a little-endian machine. What a call of the
-- system answers is an argument: a result, or an errno. `inet_pton`, `inet_ntop` and the digits that
-- `snprintf` writes for "%u" are parameters. Neither LOG_SYSERR nor LOG_SYSFATAL ends the process
-- (Logging): the statements of the log are given back. `sockets::accept` is in Acceptor.
pub mod Addresses
use transfer_server.Prelude.{
  ℕ, ◌+◌, ◌-◌, ◌*◌, ◌/◌, ◌%◌, ◌^◌, Bool, true, false, List, [], ◌∷◌, ◌++◌, Option, none, some,
  if◌then◌else◌, take,
}
use transfer_server.Prelude.Int.{ℤ, pos, negsuc}

-- What an operation writes to the log, by the name in its statement.
pub data Report : Type 0 where
  create_failed bind_failed listen_failed : Report
  close_failed shutdown_failed : Report
  address_failed local_addr_failed : Report

-- An answer without a result: done, or an errno.
pub data Answer : Type 0 where
  done : Answer
  failed : ℕ → Answer

abbrev pub report_if : Report → Answer → List Report
report_if r done = []
report_if r (failed _) = r ∷ []

-- `createNonblockingOrDie()`: a descriptor, or -1.
unfoldable pub create_nonblocking_or_die : Option ℕ → ℤ × List Report
create_nonblocking_or_die (some fd) = (pos fd, [])
create_nonblocking_or_die none = (negsuc 0, create_failed ∷ [])

abbrev pub bind_or_die : Answer → List Report
bind_or_die = report_if bind_failed

abbrev pub listen_or_die : Answer → List Report
listen_or_die = report_if listen_failed

-- `~Socket()`
abbrev pub close : Answer → List Report
close = report_if close_failed

abbrev pub shutdown_write : Answer → List Report
shutdown_write = report_if shutdown_failed

-- `getSocketError`: the errno of a call that fails, or the option.
abbrev pub get_socket_error : Answer → ℕ → ℕ
get_socket_error done optval = optval
get_socket_error (failed errno) optval = errno

-- The value that `setReuseAddr` and `setTcpNoDelay` set.
abbrev pub option_value : Bool → ℕ
option_value on = if on then 1 else 0

-- `htons` and `ntohs`, `htonl` and `ntohl`: the bytes in the opposite order.
unfoldable pub swap_16 : ℕ → ℕ
swap_16 n = n % 256 * 256 + n / 256

unfoldable pub swap_32 : ℕ → ℕ
swap_32 n = n % 256 * 2 ^ 24 + n / 256 % 256 * 2 ^ 16 + n / 2 ^ 16 % 256 * 2 ^ 8 + n / 2 ^ 24

abbrev pub host_to_network_16 : ℕ → ℕ
host_to_network_16 = swap_16

abbrev pub network_to_host_16 : ℕ → ℕ
network_to_host_16 = swap_16

abbrev pub host_to_network_32 : ℕ → ℕ
host_to_network_32 = swap_32

abbrev pub network_to_host_32 : ℕ → ℕ
network_to_host_32 = swap_32

-- `struct sockaddr_in`, with port and address in network order.
pub record InetAddress : Type 0 where
  pub family : ℕ
  pub port : ℕ
  pub addr : ℕ

-- After `bzero`.
abbrev pub zeroed : InetAddress
zeroed = record { family = 0; port = 0; addr = 0 }

-- AF_INET
abbrev pub af_inet : ℕ
af_inet = 2

-- `InetAddress(port)`; INADDR_ANY is 0.
abbrev pub from_port : ℕ → InetAddress
from_port port = record {
  family = af_inet;
  port = host_to_network_16 port;
  addr = host_to_network_32 0;
}

module _ (inet_pton : List ℕ → Option ℕ) where
  -- `fromHostPort(ip, port, addr)`
  unfoldable pub from_host_port : List ℕ → ℕ → InetAddress → InetAddress × List Report
  from_host_port ip port a =
      let named = record a { family = af_inet; port = host_to_network_16 port } in
      elim (inet_pton ip) [
        | none ↦ (named, address_failed ∷ [])
        | some addr ↦ (record named { addr = addr }, [])
      ]

  -- `InetAddress(ip, port)`
  unfoldable pub from_text : List ℕ → ℕ → InetAddress × List Report
  unfolding from_host_port
  from_text ip port = from_host_port ip port zeroed

module _ (inet_ntop : ℕ → List ℕ) (digits : ℕ → List ℕ) where
  -- What `toHostPort(buf, size, addr)` leaves in `buf` before its 0.
  unfoldable pub to_host_port : ℕ → InetAddress → List ℕ
  to_host_port size a =
      take (size - 1) (inet_ntop a.addr ++ (b':' ∷ digits (network_to_host_16 a.port)))

  -- `InetAddress::toHostPort()`, with `char buf[32]`.
  unfoldable pub to_text : InetAddress → List ℕ
  unfolding to_host_port
  to_text a = to_host_port 32 a

-- `getLocalAddr(sockfd)`: zeros where `getsockname` fails.
abbrev pub get_local_addr : Option InetAddress → InetAddress × List Report
get_local_addr none = (zeroed, local_addr_failed ∷ [])
get_local_addr (some a) = (a, [])

-- `Socket::accept(peeraddr)`: `peeraddr` is written only with a descriptor.
abbrev pub accept : Option (ℕ × InetAddress) → InetAddress → ℤ × InetAddress
accept none peer = (negsuc 0, peer)
accept (some (fd, a)) peer = (pos fd, a)
