-- ===== src/Base/Text.antt =====
-- Byte strings: `std::string` and `std::vector<char>`.
use Prim.Native.Nat.{ℕ, suc}
use Prim.Native.Char.{code}
use Prim.Native.String.{String}
use mathlib.Core.Path.{◌≡◌, refl}
use mathlib.Core.Logic.{◌↔◌, ◌≢◌}
use mathlib.Core.Option.{Option, none, some}
use mathlib.Core.Bool.{Bool, true, false, ◌&&◌}
use mathlib.Core.List.{List, [], ◌∷◌, ◌++◌}
use native.Mathlib.Omega.{arith}
use my_tiny_rpc.Base.Tests.{◌==◌, if◌then◌else◌}
use my_tiny_rpc.Base.Lists.{All, length}

abbrev pub Bytes : Type 0
Bytes = List ℕ

-- The bytes of an ASCII text.
abbrev pub codes : String → Bytes
codes String.[] = []
codes (String.◌∷◌ c s) = code c ∷ codes s

abbrev pub is_empty : Bytes → Bool
is_empty [] = true
is_empty (c ∷ s) = false

unfoldable pub bytes_eq : Bytes → Bytes → Bool
bytes_eq [] [] = true
bytes_eq [] (d ∷ t) = false
bytes_eq (c ∷ s) [] = false
bytes_eq (c ∷ s) (d ∷ t) = c == d && bytes_eq s t

pub bytes_eq_iff : (s t : Bytes) → (bytes_eq s t ≡ true) ↔ (s ≡ t)
unfolding bytes_eq
bytes_eq_iff [] [] = (λ h. refl, λ h. refl)
bytes_eq_iff [] (d ∷ t) = (λ h. absurd (cc h), λ h. absurd (cc h))
bytes_eq_iff (c ∷ s) [] = (λ h. absurd (cc h), λ h. absurd (cc h))
bytes_eq_iff (c ∷ s) (d ∷ t) =
    (λ h. ground (arith, bytes_eq_iff s t), λ h. ground (arith, bytes_eq_iff s t))

-- `find_first_of` of one character.
unfoldable pub find_first_of : ℕ → Bytes → Option ℕ
find_first_of c [] = none
find_first_of c (d ∷ s) =
    if d == c then some 0 else (elim (find_first_of c s) [ none ↦ none | some n ↦ some (suc n) ])

abbrev pub Lacks : ℕ → Bytes → Type 0
Lacks c = All (λ d. d ≢ c)

pub find_first_of-Lacks : (c : ℕ) (s : Bytes) → Lacks c s → find_first_of c s ≡ none
unfolding find_first_of
find_first_of-Lacks c [] l = refl
find_first_of-Lacks c (d ∷ s) l = ground (arith, find_first_of-Lacks c s l.1, l.0)

pub find_first_of-parts :
    (c : ℕ) (a b : Bytes) → Lacks c a → find_first_of c (a ++ (c ∷ b)) ≡ some (length a)
unfolding find_first_of
find_first_of-parts c [] b l = ground arith
find_first_of-parts c (d ∷ a) b l = ground (arith, find_first_of-parts c a b l.1, l.0)
