-- ===== src/TcpAcceptor/Tests.antt =====
-- The two ends of the constructor, and of `accept`.
use my_tiny_rpc.Base.{ℕ, Bytes, ◌≡◌, refl, true, none, some, codes}
use my_tiny_rpc.NetAddr.{IpNetAddr, from_ip_port, check_valid}
use my_tiny_rpc.TcpAcceptor.{ListenCalls, new_tcp_acceptor, accept_client}

abbrev read_ip : Bytes → ℕ
read_ip s = 16777343

abbrev write_ip : ℕ → Bytes
write_ip n = codes "127.0.0.1"

abbrev calls : ListenCalls
calls = record { socket = some 5; bind_ok = true; listen_ok = true }

abbrev local : IpNetAddr
local = from_ip_port read_ip (codes "127.0.0.1") 12345

listens :
    new_tcp_acceptor read_ip calls local
    ≡ some (record { local_addr = local; family = 2; listen_fd = 5 })
unfolding new_tcp_acceptor from_ip_port check_valid
listens = refl

-- The program ends for a port that `int16_t` makes negative.
exits : new_tcp_acceptor read_ip calls (from_ip_port read_ip (codes "127.0.0.1") 40000) ≡ none
unfolding new_tcp_acceptor from_ip_port check_valid
exits = refl

no_client :
    (accept_client write_ip none (record { local_addr = local; family = 2; listen_fd = 5 })).0
    ≡ none
unfolding accept_client
no_client = refl
