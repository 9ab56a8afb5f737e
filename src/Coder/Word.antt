-- ===== src/Coder/Word.antt =====
-- 32-bit integers in network byte order: `htonl` where the coder writes one, and
-- `getInt32FromNetByte` of tinyrpc/common/util.cc where it reads one.
-- An `int32_t` is its bit pattern, a number below `2 ^ 32`.
use my_tiny_rpc.Base.{
  ℕ, ◌+◌, ◌*◌, ◌/◌, ◌%◌, ◌^◌, ◌<◌, ◌≡◌, ◌≢◌, ap, List, [], ◌∷◌, ◌++◌, arith, drop,
}
use my_tiny_rpc.Base.Outcome.{Outcome, done, fault, stuck}

abbrev pub int32_mod : ℕ
int32_mod = 2 ^ 32

-- The four bytes of `htonl(n)` as `memcpy` stores them: the highest first.
abbrev pub net_bytes : ℕ → List ℕ
net_bytes n = (n / 2 ^ 24 % 256) ∷ (n / 2 ^ 16 % 256) ∷ (n / 2 ^ 8 % 256) ∷ (n % 256) ∷ []

front_int32 : List ℕ → Outcome ℕ
front_int32 (a ∷ b ∷ c ∷ d ∷ rest) = done (a * 2 ^ 24 + b * 2 ^ 16 + c * 2 ^ 8 + d)
front_int32 _ = fault

-- The integer at `&buf[at]`; its four bytes stand in the vector.
unfoldable pub get_int32_from_net_byte : List ℕ → ℕ → Outcome ℕ
unfolding front_int32
get_int32_from_net_byte buf at = front_int32 (drop at buf)

-- What `htonl` wrote is read back.
pub get_int32-net_bytes :
    (buf rest : List ℕ) (at n : ℕ)
    → n < int32_mod
    → drop at buf ≡ net_bytes n ++ rest
    → get_int32_from_net_byte buf at ≡ done n
unfolding get_int32_from_net_byte
get_int32-net_bytes buf rest at n h e = rw e (ap done (omega arith))

front_int32-ne-stuck : (l : List ℕ) → front_int32 l ≢ stuck
unfolding front_int32
front_int32-ne-stuck (a ∷ b ∷ c ∷ d ∷ rest) = λ e. cc e
front_int32-ne-stuck _ = λ e. cc e

pub int32-ne-stuck : (buf : List ℕ) (at : ℕ) → get_int32_from_net_byte buf at ≢ stuck
unfolding get_int32_from_net_byte
int32-ne-stuck buf at = front_int32-ne-stuck (drop at buf)
