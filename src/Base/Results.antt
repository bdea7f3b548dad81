-- ===== src/Base/Results.antt =====
-- Kernel code returns, panics, or faults: `panic` is a call of panic(), `fault` is an access through
-- a null pointer or outside an array, and `spin` is a loop that has used up its fuel.
use mathlib.Core.Path.{◌≡◌, refl}

pub data Stop : Type 0 where
  panic fault spin : Stop

pub data Result {ℓ} (A : Type ℓ) : Type ℓ where
  ok : A → Result A
  stop : Stop → Result A

infixl 5 ◌>>=◌
abbrev pub ◌>>=◌ {ℓ₁ ℓ₂} : {R : Type ℓ₁} {S : Type ℓ₂} → Result R → (R → Result S) → Result S
stop why >>= next = stop why
ok value >>= next = next value

-- A chain that returns has run both of its parts.
pub ok_of_bind {ℓ₁ ℓ₂} :
    {R : Type ℓ₁} {S : Type ℓ₂} (first : Result R) (next : R → Result S) {last : S}
    → (first >>= next) ≡ ok last
    → (middle : R) × (first ≡ ok middle) × (next middle ≡ ok last)
ok_of_bind (stop why) next returns = cc
ok_of_bind (ok middle) next returns = (middle, refl, returns)

-- The code returns a value with the property.
abbrev pub Succeeds {ℓ} : {R : Type ℓ} → (R → Type 0) → Result R → Type 0
Succeeds P (ok value) = P value
Succeeds P (stop why) = ⊥

pub bind-Succeeds {ℓ₁ ℓ₂} :
    {R : Type ℓ₁} {S : Type ℓ₂} (P : R → Type 0) (Q : S → Type 0) (first : Result R)
    (next : R → Result S)
    → Succeeds P first
    → ((value : R) → P value → Succeeds Q (next value))
    → Succeeds Q (first >>= next)
bind-Succeeds P Q (ok value) next h k = k value h
bind-Succeeds P Q (stop why) next h k = absurd h
