-- ===== src/Base/Sums.antt =====
-- Powers of two and sums over the first indices of an array.
use Prim.Native.Nat.{ℕ, zero, suc, ◌+◌, ◌*◌, ◌≤◌, ◌<◌}
use mathlib.Core.Path.{◌≡◌, refl, sym, subst}
use mathlib.Core.Logic.{◌≢◌}
use mathlib.Core.Bool.{Bool, true, ◌&&◌}
use native.Mathlib.Omega.{arith}
use native.Mathlib.Decide.{dec_lt, dec_le, ℕ_discrete}
use graduation_prj.Base.Lists.{update}

abbrev pub pow2 : ℕ → ℕ
pow2 zero = 1
pow2 (suc n) = 2 * pow2 n

pub pow2-pos : (n : ℕ) → 1 ≤ pow2 n
pow2-pos zero = omega arith
pow2-pos (suc n) = omega (arith, pow2-pos n)

module _ {ℓ} {A : Type ℓ} (w : ℕ → A → ℕ) where
  -- `w 0 (f 0) + ... + w (n - 1) (f (n - 1))`
  unfoldable pub sum_below : ℕ → (ℕ → A) → ℕ
  sum_below zero f = 0
  sum_below (suc n) f = sum_below n f + w n (f n)

  sum_below-update_above :
      (v : A) (k : ℕ) (f : ℕ → A) (i : ℕ) → k ≤ i → sum_below k (update f i v) ≡ sum_below k f
  unfolding sum_below
  sum_below-update_above v zero f i h = refl
  sum_below-update_above v (suc k) f i h = ground (arith, sum_below-update_above v k f i)

  -- An assignment exchanges the term of its index.
  pub sum_below-update :
      (n : ℕ) (f : ℕ → A) (i : ℕ) (v : A) (lt : i < n)
      → sum_below n f + w i v ≡ sum_below n (update f i v) + w i (f i)
  unfolding sum_below
  sum_below-update zero f i v lt = absurd (omega arith)
  sum_below-update (suc k) f i v lt = elim (dec_le k i) [
    | yes top ↦ ground (arith, sum_below-update_above v k f i)
    | no under ↦ ground (arith, sum_below-update k f i v)
  ]

  pub term-le-sum_below : (n : ℕ) (f : ℕ → A) (i : ℕ) → i < n → w i (f i) ≤ sum_below n f
  unfolding sum_below
  term-le-sum_below zero f i h = absurd (omega arith)
  term-le-sum_below (suc n) f i h = elim (dec_lt i n) [
    | yes below ↦ omega (arith, term-le-sum_below n f i below)
    | no last ↦ ground arith
  ]

pub sum_below-le {ℓ} :
    {A : Type ℓ} (w : ℕ → A → ℕ) (n : ℕ) (f : ℕ → A)
    → ((i : ℕ) → w i (f i) ≤ 1)
    → sum_below w n f ≤ n
unfolding sum_below
sum_below-le w zero f h = omega arith
sum_below-le w (suc n) f h = omega (arith, sum_below-le w n f h, h n)

pub pow2_mono : (n m : ℕ) → pow2 n ≤ pow2 m → n ≤ m
pow2_mono zero m h = omega arith
pow2_mono (suc n) zero h = absurd (omega (arith, pow2-pos n))
pow2_mono (suc n) (suc m) h = omega (arith, pow2_mono n m (omega arith))

pub pow2-le : (n m : ℕ) → n ≤ m → pow2 n ≤ pow2 m
pow2-le zero m h = pow2-pos m
pow2-le (suc n) zero h = absurd (omega arith)
pow2-le (suc n) (suc m) h = omega (arith, pow2-le n m (omega arith))

pub sum_below-zero {ℓ} :
    {A : Type ℓ} (w : ℕ → A → ℕ) (f : ℕ → A)
    → ((i : ℕ) → w i (f i) ≡ 0)
    → (n : ℕ) → sum_below w n f ≡ 0
unfolding sum_below
sum_below-zero w f h zero = refl
sum_below-zero w f h (suc n) = omega (arith, sum_below-zero w f h n, h n)

-- Whether a test holds of each of the first `bound` numbers.
unfoldable pub holds_below : (ℕ → Bool) → ℕ → Bool
holds_below test zero = true
holds_below test (suc bound) = holds_below test bound && test bound

pub holds_below-at :
    (test : ℕ → Bool) (bound i : ℕ) → holds_below test bound ≡ true → i < bound → test i ≡ true
unfolding holds_below
holds_below-at test zero i all lt = absurd (omega arith)
holds_below-at test (suc bound) i all lt = ground (arith, holds_below-at test bound i)

-- The sum of the first terms of a function.
abbrev pub total : ℕ → (ℕ → ℕ) → ℕ
total zero f = 0
total (suc n) f = total n f + f n

pub total-same : (n : ℕ) (f g : ℕ → ℕ) → ((c : ℕ) → c < n → f c ≡ g c) → total n f ≡ total n g
total-same zero f g h = refl
total-same (suc n) f g h =
    omega (arith, total-same n f g (λ c lt. h c (omega arith)), h n (omega arith))

pub total-less :
    (n k : ℕ) (f g : ℕ → ℕ)
    → k < n
    → f k ≡ suc (g k)
    → ((c : ℕ) → c < n → c ≢ k → f c ≡ g c)
    → total n f ≡ suc (total n g)
total-less zero k f g lt e h = absurd (omega arith)
total-less (suc n) k f g lt e h = elim (ℕ_discrete n k) [
  | yes last ↦ omega (
    arith,
    total-same n f g (λ c below. h c (omega arith) (λ same. omega (arith, below, same, last))),
    subst (λ m. f m ≡ suc (g m)) (sym last) e,
  )
  | no under ↦ omega (
    arith,
    total-less n k f g (omega (arith, under)) e (λ c below ne. h c (omega arith) ne),
    h n (omega arith) under,
  )
]

pub total-zero : (n : ℕ) (f : ℕ → ℕ) → ((c : ℕ) → c < n → f c ≡ 0) → total n f ≡ 0
total-zero zero f h = refl
total-zero (suc n) f h =
    omega (arith, total-zero n f (λ c lt. h c (omega arith)), h n (omega arith))
