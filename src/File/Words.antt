-- ===== src/File/Words.antt =====
-- Little-endian numbers in the bytes of a block.
use graduation_prj.Base.{
  ℕ, ◌+◌, ◌*◌, ◌/◌, ◌%◌, ◌^◌, ◌≤◌, ◌<◌, ◌≡◌, ◌≢◌, ◌⊎◌, inl, inr, sym, ap, ◌∙◌, update, update_same,
  update_other, arith,
}

-- `uint` and `ushort` at a byte of a block.
abbrev pub get_word : (ℕ → ℕ) → ℕ → ℕ
get_word bytes o = bytes o + 256 * bytes (o + 1) + 65536 * bytes (o + 2) + 16777216 * bytes (o + 3)

abbrev pub get_half : (ℕ → ℕ) → ℕ → ℕ
get_half bytes o = bytes o + 256 * bytes (o + 1)

unfoldable pub put_half : ℕ → ℕ → (ℕ → ℕ) → ℕ → ℕ
put_half o w bytes = update (update bytes o (w % 256)) (o + 1) (w / 256 % 256)

unfoldable pub put_word : ℕ → ℕ → (ℕ → ℕ) → ℕ → ℕ
put_word o w bytes = put_half (o + 2) (w / 65536) (put_half o w bytes)

put_half-low : (o w : ℕ) (bytes : ℕ → ℕ) → put_half o w bytes o ≡ w % 256
unfolding put_half
put_half-low o w bytes =
    update_other (update bytes o (w % 256)) (o + 1) o (w / 256 % 256) (λ e. omega (arith, e))
    ∙ update_same bytes o (w % 256)

put_half-high : (o w : ℕ) (bytes : ℕ → ℕ) → put_half o w bytes (o + 1) ≡ w / 256 % 256
unfolding put_half
put_half-high o w bytes = update_same (update bytes o (w % 256)) (o + 1) (w / 256 % 256)

put_half-other :
    (o w : ℕ) (bytes : ℕ → ℕ) (i : ℕ) → i ≢ o → i ≢ o + 1 → put_half o w bytes i ≡ bytes i
unfolding put_half
put_half-other o w bytes i ne ne' =
    update_other (update bytes o (w % 256)) (o + 1) i (w / 256 % 256) (λ e. ne' (sym e))
    ∙ update_other bytes o i (w % 256) (λ e. ne (sym e))

pub get_half-put_half : (o w : ℕ) (bytes : ℕ → ℕ) → w < 2 ^ 16 → get_half (put_half o w bytes) o ≡ w
get_half-put_half o w bytes lt = omega (arith, put_half-low o w bytes, put_half-high o w bytes)

pub put_word-other :
    (o w : ℕ) (bytes : ℕ → ℕ) (i : ℕ) → (i < o) ⊎ (o + 4 ≤ i) → put_word o w bytes i ≡ bytes i
unfolding put_word
put_word-other o w bytes i h =
    put_half-other (o + 2) (w / 65536) (put_half o w bytes) i
      (elim h [ inl a ↦ λ e. omega (arith, a, e) | inr a ↦ λ e. omega (arith, a, e) ])
      (elim h [ inl a ↦ λ e. omega (arith, a, e) | inr a ↦ λ e. omega (arith, a, e) ])
    ∙ put_half-other o w bytes i
        (elim h [ inl a ↦ λ e. omega (arith, a, e) | inr a ↦ λ e. omega (arith, a, e) ])
        (elim h [ inl a ↦ λ e. omega (arith, a, e) | inr a ↦ λ e. omega (arith, a, e) ])

pub get_word-put_word : (o w : ℕ) (bytes : ℕ → ℕ) → w < 2 ^ 32 → get_word (put_word o w bytes) o ≡ w
unfolding put_word
get_word-put_word o w bytes lt =
    let below = put_half o w bytes in
    let b0 : put_half (o + 2) (w / 65536) below o ≡ w % 256 =
      put_half-other (o + 2) (w / 65536) below o (λ e. omega (arith, e)) (λ e. omega (arith, e))
      ∙ put_half-low o w bytes in
    let b1 : put_half (o + 2) (w / 65536) below (o + 1) ≡ w / 256 % 256 =
      put_half-other (o + 2) (w / 65536) below (o + 1) (λ e. omega (arith, e))
        (λ e. omega (arith, e))
      ∙ put_half-high o w bytes in
    let b2 = put_half-low (o + 2) (w / 65536) below in
    let b3 : put_half (o + 2) (w / 65536) below (o + 3) ≡ w / 65536 / 256 % 256 =
      ap (put_half (o + 2) (w / 65536) below) (omega arith)
      ∙ put_half-high (o + 2) (w / 65536) below in
    omega (arith, b0, b1, b2, b3)

-- Numbers at places that do not overlap.
pub get_word-put_word_other :
    (o w : ℕ) (bytes : ℕ → ℕ) (i : ℕ)
    → (i + 4 ≤ o) ⊎ (o + 4 ≤ i)
    → get_word (put_word o w bytes) i ≡ get_word bytes i
get_word-put_word_other o w bytes i h =
    let at : (k : ℕ) → k < 4 → put_word o w bytes (i + k) ≡ bytes (i + k) = λ k lt.
      put_word-other o w bytes (i + k)
        (elim h [ inl a ↦ inl (omega (arith, a, lt)) | inr a ↦ inr (omega (arith, a)) ]) in
    let b0 : put_word o w bytes i ≡ bytes i =
      put_word-other o w bytes i
        (elim h [ inl a ↦ inl (omega (arith, a)) | inr a ↦ inr (omega (arith, a)) ]) in
    omega (arith, b0, at 1 (omega arith), at 2 (omega arith), at 3 (omega arith))
