-- ===== src/NetAddr/Text.antt =====
-- An address is written as text and read back, and which addresses are valid.
use my_tiny_rpc.Base.{
  ℕ, ◌+◌, ◌-◌, ◌%◌, ◌^◌, ◌<◌, ◌≡◌, ◌≢◌, ◌↔◌, refl, sym, ap, ◌∙◌, Bytes, true, [], ◌∷◌, ◌++◌, arith,
  length, length-append, take, drop, take-append, drop-append, take_all, drop-drop, find_first_of,
  Lacks, find_first_of-parts,
}
use my_tiny_rpc.Base.Outcome.{done}
use my_tiny_rpc.Base.Decimal.{to_string, atoi-to_string}
use my_tiny_rpc.NetAddr.{
  IpNetAddr, inaddr_none, swap_bytes, int_of_port, address_text, from_ip_port, from_parts,
  from_text, from_sock_addr, check_valid,
}

int_of_port-mod : (port : ℕ) → port < 2 ^ 16 → int_of_port port % 2 ^ 16 ≡ port
int_of_port-mod port h = ground arith

int_of_port-lt : (port : ℕ) → port < 2 ^ 16 → int_of_port port < 2 ^ 32
int_of_port-lt port h = ground arith

drop_colon : (ip s : Bytes) → drop (length ip + 1) (ip ++ 58 ∷ s) ≡ s
drop_colon ip s =
    sym (drop-drop (length ip) 1 (ip ++ 58 ∷ s)) ∙ ap (drop 1) (drop-append ip (58 ∷ s) refl)

behind_colon :
    (ip s : Bytes)
    → take (length (ip ++ 58 ∷ s) - length ip - 1) (drop (length ip + 1) (ip ++ 58 ∷ s)) ≡ s
behind_colon ip s =
    ap (take (length (ip ++ 58 ∷ s) - length ip - 1)) (drop_colon ip s)
    ∙ take_all _ s (omega (arith, length-append ip (58 ∷ s)))

-- The text of an address is read back as the same address, whatever the memory held: for an IP
-- without a colon and every port of 16 bits, also one that the text shows as a negative number.
pub from_text-address_text :
    (inet_addr : Bytes → ℕ) (memory : IpNetAddr) (ip : Bytes) (port : ℕ)
    → Lacks 58 ip
    → port < 2 ^ 16
    → from_text inet_addr memory (address_text (from_ip_port inet_addr ip port))
      ≡ done (from_ip_port inet_addr ip port)
unfolding from_text address_text from_ip_port from_parts find_first_of
from_text-address_text inet_addr memory ip port l h = rw (
  find_first_of-parts 58 ip (to_string (int_of_port port)) l,
  behind_colon ip (to_string (int_of_port port)),
  atoi-to_string (int_of_port port) (int_of_port-lt port h),
  int_of_port-mod port h,
  take-append ip (58 ∷ to_string (int_of_port port)) {n = length ip} refl,
)

-- Which addresses are valid: an address made of an IP and a port passes the check exactly when the
-- IP is not empty and `inet_addr` reads it, and the port is below 32768.
pub check_valid_iff :
    (inet_addr : Bytes → ℕ) (ip : Bytes) (port : ℕ)
    → (check_valid inet_addr (from_ip_port inet_addr ip port) ≡ true)
      ↔ ((ip ≢ []) × (port < 2 ^ 15) × (inet_addr ip ≢ inaddr_none))
unfolding check_valid from_ip_port
check_valid_iff inet_addr [] port = ground arith
check_valid_iff inet_addr (c ∷ ip) port = ground arith

swap_bytes-swap_bytes : (n : ℕ) → n < 2 ^ 16 → swap_bytes (swap_bytes n) ≡ n
swap_bytes-swap_bytes n h = omega arith

-- What the kernel hands back of an address that was given to it is that address again, where
-- `inet_ntoa` writes what `inet_addr` read.
pub from_sock_addr-addr :
    (inet_addr : Bytes → ℕ) (inet_ntoa : ℕ → Bytes) (ip : Bytes) (port : ℕ)
    → inet_ntoa (inet_addr ip) ≡ ip
    → port < 2 ^ 16
    → from_sock_addr inet_ntoa (from_ip_port inet_addr ip port).addr
      ≡ from_ip_port inet_addr ip port
unfolding from_sock_addr from_ip_port
from_sock_addr-addr inet_addr inet_ntoa ip port e h = rw (e, swap_bytes-swap_bytes port h)
