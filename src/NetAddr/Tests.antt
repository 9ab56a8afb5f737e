-- ===== src/NetAddr/Tests.antt =====
-- Addresses as text, and the theorems at some of them.
use my_tiny_rpc.Base.{
  ℕ, ◌^◌, ◌<◌, ◌≡◌, ◌≢◌, ◌↔◌, refl, Bytes, true, [], arith, codes, if◌then◌else◌, bytes_eq,
  find_first_of,
}
use my_tiny_rpc.Base.Outcome.{done}
use my_tiny_rpc.Base.Decimal.{to_string, digits}
use my_tiny_rpc.NetAddr.{IpNetAddr, inaddr_none, address_text, from_ip_port, from_text, check_valid}
use my_tiny_rpc.NetAddr.Text.{from_text-address_text, check_valid_iff}

-- One address of `inet_addr`, and of `inet_ntoa`.
unfoldable read_ip : Bytes → ℕ
unfolding bytes_eq
read_ip s = if bytes_eq s (codes "127.0.0.1") then 16777343 else inaddr_none

abbrev write_ip : ℕ → Bytes
write_ip n = codes "127.0.0.1"

abbrev localhost : IpNetAddr
localhost = from_ip_port read_ip (codes "127.0.0.1") 12345

-- Without a colon the port stays as the memory was, and the address is not valid.
no_colon : from_text read_ip localhost (codes "127.0.0.1") ≡ done (record localhost { ip = [] })
unfolding from_text find_first_of read_ip bytes_eq from_ip_port
no_colon = refl

text_of_localhost : address_text localhost ≡ codes "127.0.0.1:12345"
unfolding address_text from_ip_port to_string digits read_ip bytes_eq
text_of_localhost = refl

high_port : address_text (from_ip_port read_ip (codes "127.0.0.1") 40000) ≡ codes "127.0.0.1:-25536"
unfolding address_text from_ip_port to_string digits read_ip bytes_eq
high_port = refl

from_text-address_text_example :
    from_text read_ip localhost (address_text (from_ip_port read_ip (codes "127.0.0.1") 40000))
    ≡ done (from_ip_port read_ip (codes "127.0.0.1") 40000)
from_text-address_text_example =
    from_text-address_text read_ip localhost (codes "127.0.0.1") 40000 (ground arith) (omega arith)

check_valid_iff_example :
    (check_valid read_ip localhost ≡ true)
    ↔ ((codes "127.0.0.1" ≢ []) × (12345 < 2 ^ 15) × (read_ip (codes "127.0.0.1") ≢ inaddr_none))
check_valid_iff_example = check_valid_iff read_ip (codes "127.0.0.1") 12345
