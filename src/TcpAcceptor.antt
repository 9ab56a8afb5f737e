-- ===== src/TcpAcceptor.antt =====
-- tinyrpc/net/tcp/tcp_acceptor.{h,cc}: the listening socket.
-- What the system calls return is an argument: `socket` a descriptor or none, `bind` and `listen`
-- whether they succeed, `accept` a descriptor or none, with the peer's address. `setsockopt` is only
-- logged when it fails, and is left out.
pub mod Tests
use my_tiny_rpc.Base.{ℕ, Bytes, Bool, true, false, Option, none, some, ◌==◌, if◌then◌else◌}
use my_tiny_rpc.NetAddr.{af_inet, get_family, SockAddrIn, IpNetAddr, from_sock_addr, check_valid}

pub record TcpAcceptor : Type 0 where
  pub local_addr : IpNetAddr
  pub family : ℕ
  pub listen_fd : ℕ

-- What the constructor's system calls return.
pub record ListenCalls : Type 0 where
  pub socket : Option ℕ
  pub bind_ok : Bool
  pub listen_ok : Bool

-- Where the program ends with `exit(0)`, there is no acceptor.
abbrev pub or_exit {ℓ} : {A : Type ℓ} → Bool → Option A → Option A
or_exit true next = next
or_exit false next = none

abbrev pub bind_and_listen : ListenCalls → IpNetAddr → Option ℕ → Option TcpAcceptor
bind_and_listen calls local_addr none = none
bind_and_listen calls local_addr (some fd) = or_exit calls.bind_ok (
    or_exit calls.listen_ok
      (some (record { local_addr = local_addr; family = get_family local_addr; listen_fd = fd })))

-- The constructor.
unfoldable pub new_tcp_acceptor : (Bytes → ℕ) → ListenCalls → IpNetAddr → Option TcpAcceptor
new_tcp_acceptor inet_addr calls local_addr =
    or_exit (check_valid inet_addr local_addr) (bind_and_listen calls local_addr calls.socket)

-- `accept`: the descriptor, or none where it is -1, and the peer's address. A failed call leaves
-- the address that is handed on all zero.
unfoldable pub accept_client :
    (ℕ → Bytes) → Option (ℕ × SockAddrIn) → TcpAcceptor → Option ℕ × Option IpNetAddr
accept_client inet_ntoa result acceptor =
    if acceptor.family == af_inet
    then (elim result [
      | some (fd, addr) ↦ (some fd, some (from_sock_addr inet_ntoa addr))
      | none ↦ (
        none,
        some (from_sock_addr inet_ntoa (record { sin_family = 0; sin_port = 0; s_addr = 0 })),
      )
    ])
    else (none, none)
