-- ===== src/Base/Decimal.antt =====
-- Numbers as decimal text: `std::to_string` of an `int`, and `std::atoi`.
-- An `int` is its bit pattern, a number below `2 ^ 32`.
use Prim.Native.Nat.{ℕ, zero, suc, ◌+◌, ◌-◌, ◌*◌, ◌/◌, ◌%◌, ◌^◌, ◌≤◌, ◌<◌}
use mathlib.Core.Path.{◌≡◌, refl, ap, ◌∙◌}
use mathlib.Core.Bool.{Bool, ◌&&◌, ◌||◌}
use mathlib.Core.List.{[], ◌∷◌, ◌++◌}
use native.Mathlib.Omega.{arith}
use my_tiny_rpc.Base.Tests.{ltb, leb, ◌==◌, if◌then◌else◌, if_intro}
use my_tiny_rpc.Base.Lists.{All, All-append}
use my_tiny_rpc.Base.Text.{Bytes}
use my_tiny_rpc.Base.Outcome.{Outcome, done, fault}

-- The decimal digits of `n`, at most `fuel` of them.
unfoldable pub digits : ℕ → ℕ → Bytes
digits zero n = []
digits (suc fuel) n =
    let rest = digits fuel (n / 10) in
    if ltb n 10 then (48 + n) ∷ [] else rest ++ (48 + n % 10) ∷ []

-- An `int` has at most ten digits.
unfoldable pub to_string : ℕ → Bytes
to_string n = if ltb n (2 ^ 31) then digits 10 n else 45 ∷ digits 10 (2 ^ 32 - n)

abbrev pub is_space : ℕ → Bool
is_space c = c == 32 || (leb 9 c && leb c 13)

abbrev pub is_digit : ℕ → Bool
is_digit c = leb 48 c && leb c 57

abbrev pub IsDigit : ℕ → Type 0
IsDigit c = (48 ≤ c) × (c ≤ 57)

abbrev pub skip_spaces : Bytes → Bytes
skip_spaces [] = []
skip_spaces (c ∷ s) = let rest = skip_spaces s in if is_space c then rest else c ∷ s

-- The digits in front of `s`, read behind those that come to `acc`.
unfoldable pub read_digits : ℕ → Bytes → ℕ
read_digits acc [] = acc
read_digits acc (c ∷ s) =
    let rest = read_digits (acc * 10 + (c - 48)) s in if is_digit c then rest else acc

-- Behind a minus sign, or behind none. A number that is no `int` is undefined behaviour.
abbrev pub plus : ℕ → Outcome ℕ
plus n = if ltb n (2 ^ 31) then done n else fault

abbrev pub minus : ℕ → Outcome ℕ
minus n = if leb n (2 ^ 31) then done ((2 ^ 32 - n) % 2 ^ 32) else fault

abbrev pub signed : Bytes → Outcome ℕ
signed [] = done 0
signed (c ∷ s) =
    if c == 45
    then minus (read_digits 0 s)
    else if c == 43
    then plus (read_digits 0 s)
    else plus (read_digits 0 (c ∷ s))

unfoldable pub atoi : Bytes → Outcome ℕ
atoi s = signed (skip_spaces s)

-- All of `s` is digits.
read_digits-append :
    (acc : ℕ) (s : Bytes) (c : ℕ)
    → All IsDigit s
    → IsDigit c
    → read_digits acc (s ++ c ∷ []) ≡ read_digits acc s * 10 + (c - 48)
unfolding read_digits
read_digits-append acc [] c h d = ground arith
read_digits-append acc (x ∷ s) c h d =
    ground (arith, read_digits-append (acc * 10 + (x - 48)) s c h.1 d)

digits-IsDigit : (fuel n : ℕ) → All IsDigit (digits fuel n)
unfolding digits
digits-IsDigit zero n = tt
digits-IsDigit (suc fuel) n =
    if_intro (All IsDigit) (ltb n 10) _ _ (λ small. ((omega arith, ground arith), tt))
      (λ large.
        All-append IsDigit (digits fuel (n / 10)) _ (digits-IsDigit fuel (n / 10))
          ((omega arith, omega arith), tt))

-- What `fuel` digits hold.
abbrev limit : ℕ → ℕ
limit zero = 1
limit (suc fuel) = 10 * limit fuel

read_digits-digits : (fuel n : ℕ) → n < limit fuel → read_digits 0 (digits fuel n) ≡ n
unfolding digits read_digits
read_digits-digits zero n h = omega arith
read_digits-digits (suc fuel) n h =
    if_intro (λ s. read_digits 0 s ≡ n) (ltb n 10) _ _ (λ small. ground arith)
      (λ large.
        read_digits-append 0 (digits fuel (n / 10)) (48 + n % 10) (digits-IsDigit fuel (n / 10))
          (omega arith, omega arith)
        ∙ omega (arith, read_digits-digits fuel (n / 10) (omega arith)))

signed-digits : (s : Bytes) → All IsDigit s → signed (skip_spaces s) ≡ plus (read_digits 0 s)
unfolding read_digits
signed-digits [] h = refl
signed-digits (c ∷ s) h = ground (arith, h.0.0, h.0.1)

-- `std::atoi` reads what `std::to_string` writes of any `int`.
pub atoi-to_string : (n : ℕ) → n < 2 ^ 32 → atoi (to_string n) ≡ done n
unfolding atoi to_string
atoi-to_string n h =
    if_intro (λ s. atoi s ≡ done n) (ltb n (2 ^ 31)) _ _
      (λ small.
        signed-digits (digits 10 n) (digits-IsDigit 10 n)
        ∙ ap plus (read_digits-digits 10 n (ground arith))
        ∙ ground arith)
      (λ large. ap minus (read_digits-digits 10 (2 ^ 32 - n) (ground arith)) ∙ ground arith)
