-- ===== src/Base/Outcome.antt =====
-- The outcome of code that may fault, and the monad in which such code is composed.
use mathlib.Core.Path.{◌≡◌, refl, ap}
use mathlib.Core.Bool.{Bool, true, false}
use mathlib.Core.Logic.{◌≢◌, ◌⊎◌, inl, inr}
use my_tiny_rpc.Base.Tests.{if◌then◌else◌}

-- `fault` is undefined behaviour of the source (an access out of bounds, a signed overflow) or an
-- exception that nothing catches. `stuck` means that the fuel of a loop ran out.
pub data Outcome {ℓ} (A : Type ℓ) : Type ℓ where
  done : A → Outcome A
  fault : Outcome A
  stuck : Outcome A

infixl 5 ◌>>=◌ ◌>>◌
abbrev pub ◌>>=◌ {ℓ κ} : {A : Type ℓ} {B : Type κ} → Outcome A → (A → Outcome B) → Outcome B
done a >>= f = f a
fault >>= f = fault
stuck >>= f = stuck

abbrev pub ◌>>◌ {ℓ} : {B : Type ℓ} → Outcome (Unit {0}) → Outcome B → Outcome B
m >> k = m >>= λ _. k

-- A condition that the source relies on without testing it.
abbrev pub demand : Bool → Outcome (Unit {0})
demand true = done tt
demand false = fault

-- Inversion of a bind and of a conditional that give a result.
pub bind-eq-done {ℓ κ} :
    {A : Type ℓ} {B : Type κ} (m : Outcome A) (f : A → Outcome B) {b : B}
    → (m >>= f) ≡ done b
    → (a : A) × (m ≡ done a) × (f a ≡ done b)
bind-eq-done (done a) f h = (a, refl, h)
bind-eq-done fault f h = absurd (cc h)
bind-eq-done stuck f h = absurd (cc h)

pub if-eq {ℓ} :
    {A : Type ℓ} (b : Bool) (x y : A) {z : A}
    → (if b then x else y) ≡ z
    → ((b ≡ true) × (x ≡ z)) ⊎ ((b ≡ false) × (y ≡ z))
if-eq true x y h = inl (refl, h)
if-eq false x y h = inr (refl, h)

pub done-injective {ℓ} : {A : Type ℓ} {x y : A} → done x ≡ done y → x ≡ y
done-injective {x} e = ap (λ o. elim o [ done a ↦ a | fault ↦ x | stuck ↦ x ]) e

-- What cannot run out of fuel.
pub done-ne-stuck {ℓ} : {A : Type ℓ} {a : A} → done a ≢ stuck
done-ne-stuck e = cc e

pub bind-ne-stuck_eq {ℓ κ} :
    {A : Type ℓ} {B : Type κ} (m : Outcome A) (f : A → Outcome B)
    → m ≢ stuck
    → ((a : A) → m ≡ done a → f a ≢ stuck)
    → (m >>= f) ≢ stuck
bind-ne-stuck_eq (done a) f h k = k a refl
bind-ne-stuck_eq fault f h k = λ e. cc e
bind-ne-stuck_eq stuck f h k = absurd (h refl)

pub bind-ne-stuck {ℓ κ} :
    {A : Type ℓ} {B : Type κ} (m : Outcome A) (f : A → Outcome B)
    → m ≢ stuck
    → ((a : A) → f a ≢ stuck)
    → (m >>= f) ≢ stuck
bind-ne-stuck m f h k = bind-ne-stuck_eq m f h (λ a _. k a)

pub if-ne-stuck {ℓ} :
    {A : Type ℓ} (b : Bool) (x y : Outcome A) → x ≢ stuck → y ≢ stuck → (if b then x else y) ≢ stuck
if-ne-stuck true x y h k = h
if-ne-stuck false x y h k = k
