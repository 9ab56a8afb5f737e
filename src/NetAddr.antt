-- ===== src/NetAddr.antt =====
-- tinyrpc/net/tcp/net_addr.{h,cc}: an address of an IPv4 socket, with its text.
-- `m_port`, an `int16_t`, is its bit pattern, a number below `2 ^ 16`; from `2 ^ 15` on it is
-- negative. `inet_addr` and `inet_ntoa` are of the C library's sockets, and are arguments.
pub mod Text
pub mod Tests
use my_tiny_rpc.Base.{
  ℕ, ◌+◌, ◌-◌, ◌*◌, ◌/◌, ◌%◌, ◌^◌, Bytes, Bool, true, false, not, ◌&&◌, ◌||◌, Option, none, some,
  [], ◌∷◌, ◌++◌, ltb, leb, ◌==◌, if◌then◌else◌, length, take, drop, is_empty, find_first_of,
}
use my_tiny_rpc.Base.Outcome.{Outcome, done, ◌>>=◌}
use my_tiny_rpc.Base.Decimal.{to_string, atoi}

-- `AF_INET`
abbrev pub af_inet : ℕ
af_inet = 2

-- `INADDR_NONE`
abbrev pub inaddr_none : ℕ
inaddr_none = 2 ^ 32 - 1

-- The fields of a `sockaddr_in`, the port and the address in network byte order.
pub record SockAddrIn : Type 0 where
  pub sin_family : ℕ
  pub sin_port : ℕ
  pub s_addr : ℕ

pub record IpNetAddr : Type 0 where
  pub ip : Bytes
  pub port : ℕ
  pub addr : SockAddrIn

-- `htons` and `ntohs` on a little-endian machine: the two bytes change places.
abbrev pub swap_bytes : ℕ → ℕ
swap_bytes n = n % 256 * 256 + n / 256 % 256

-- An `int16_t` that stands in an `int`.
abbrev pub int_of_port : ℕ → ℕ
int_of_port port = if ltb port (2 ^ 15) then port else 2 ^ 32 - (2 ^ 16 - port)

-- `toString`
unfoldable pub address_text : IpNetAddr → Bytes
address_text a = a.ip ++ 58 ∷ to_string (int_of_port a.port)

-- `getFamily`
abbrev pub get_family : IpNetAddr → ℕ
get_family a = af_inet

-- The constructor from a `sockaddr_in`.
unfoldable pub from_sock_addr : (ℕ → Bytes) → SockAddrIn → IpNetAddr
from_sock_addr inet_ntoa addr = record {
  ip = inet_ntoa addr.s_addr;
  port = swap_bytes addr.sin_port;
  addr = addr;
}

module _ (inet_addr : Bytes → ℕ) where
  -- The constructor from an IP and a port.
  unfoldable pub from_ip_port : Bytes → ℕ → IpNetAddr
  from_ip_port ip port = record {
    ip = ip;
    port = port;
    addr = record { sin_family = af_inet; sin_port = swap_bytes port; s_addr = inet_addr ip };
  }

  -- Where the text has a colon, at `idx`. The `int` of `atoi` loses its upper bits.
  unfoldable pub from_parts : Bytes → ℕ → Outcome IpNetAddr
  from_parts text idx = atoi (take (length text - idx - 1) (drop (idx + 1) text)) >>= λ n.
      done (from_ip_port (take idx text) (n % 2 ^ 16))

  -- The constructor from a text. Without a colon the port and the `sockaddr_in` stay as the
  -- memory was.
  unfoldable pub from_text : IpNetAddr → Bytes → Outcome IpNetAddr
  from_text memory text = elim (find_first_of 58 text) [
    | none ↦ done (record memory { ip = [] })
    | some idx ↦ from_parts text idx
  ]

  -- `checkValid`. A port is never above 65536.
  unfoldable pub check_valid : IpNetAddr → Bool
  check_valid a =
      if is_empty a.ip
      then false
      else if leb (2 ^ 15) a.port || (ltb a.port (2 ^ 15) && ltb 65536 a.port)
      then false
      else if inet_addr a.ip == inaddr_none
      then false
      else true
