-- ===== src/Log/Install.antt =====
-- `install_trans`: what a partial or a complete run does to the home blocks.
use graduation_prj.Base.{
  ℕ, zero, suc, ◌+◌, ◌-◌, ◌≤◌, ◌<◌, ◌≡◌, ◌≢◌, ◌⊎◌, inl, inr, refl, Bool, true, false, ◌==◌, ◌||◌,
  arith, ap, ◌∙◌, ℕ_discrete, Bool-cases, ==→eq,
}
use graduation_prj.Log.Defs.{Block, Log, Device, bread, bwrite, install_from}
use graduation_prj.Log.Phases.{
  bwrite-lost, bwrite_keeps, bwrite-other, bread-bwrite_other, bwrite-left, bwrite_self,
}

-- Whether one of the `rounds` entries of the header from `i` on names the block `x`.
unfoldable pub logged_from : ℕ → ℕ → (ℕ → ℕ) → ℕ → Bool
logged_from zero i block x = false
logged_from (suc rounds) i block x = block i == x || logged_from rounds (i + 1) block x

pub logged_from-true :
    (rounds i : ℕ) (block : ℕ → ℕ) (x : ℕ)
    → logged_from rounds i block x ≡ true
    → (j : ℕ) × (i ≤ j) × (j < i + rounds) × (block j ≡ x)
unfolding logged_from
logged_from-true zero i block x h = cc
logged_from-true (suc rounds) i block x h = elim (Bool-cases (block i == x)) [
  | inl here ↦ (i, omega arith, omega arith, ==→eq (block i) x here)
  | inr later ↦
      let (j, from, to, e) = logged_from-true rounds (i + 1) block x (ground arith) in
      (j, omega arith, omega arith, e)
]

pub logged_from-false :
    (rounds i : ℕ) (block : ℕ → ℕ) (x : ℕ)
    → logged_from rounds i block x ≡ false
    → (j : ℕ) → i ≤ j
    → j < i + rounds
    → block j ≢ x
unfolding logged_from
logged_from-false zero i block x h j from to = absurd (omega arith)
logged_from-false (suc rounds) i block x h j from to = elim (ℕ_discrete i j) [
  | yes here ↦ λ e. ground (arith, ap block here)
  | no other ↦ logged_from-false rounds (i + 1) block x (ground arith) j (omega arith) (omega arith)
]

pub install_from-left :
    (rounds tail : ℕ) (l : Log) (d : Device)
    → (install_from rounds tail l d).writes_left ≡ d.writes_left - rounds
unfolding install_from
install_from-left zero tail l d = omega arith
install_from-left (suc rounds) tail l d =
    let b : ℕ = l.block tail in
    let v : Block = bread (l.start + tail + 1) d in
    omega (arith, install_from-left rounds (tail + 1) l (bwrite b v d), bwrite-left b v d)

-- A block that the header does not name is left alone.
pub install_from-other :
    (rounds tail : ℕ) (l : Log) (d : Device) (x : ℕ)
    → ((i : ℕ) → tail ≤ i → i < tail + rounds → l.block i ≢ x)
    → (install_from rounds tail l d).disk x ≡ d.disk x
unfolding install_from
install_from-other zero tail l d x h = refl
install_from-other (suc rounds) tail l d x h =
    let b : ℕ = l.block tail in
    let v : Block = bread (l.start + tail + 1) d in
    install_from-other rounds (tail + 1) l (bwrite b v d) x
      (λ i from to. h i (omega arith) (omega arith))
    ∙ bwrite-other b v d x (h tail (omega arith) (omega arith))

module _ (l : Log) (n : ℕ) (new : ℕ → Block) where
  -- Home blocks lie outside the log.
  abbrev pub Apart : Type 0
  Apart = (i : ℕ) → i < n → (l.block i < l.start) ⊎ (l.start + n < l.block i)

  -- The log's blocks hold the new contents of the home blocks.
  abbrev pub Holds : Device → Type 0
  Holds d = (i : ℕ) → i < n → bread (l.start + i + 1) d ≡ new (l.block i)

  Holds-bwrite :
      Apart → (i : ℕ) → i < n → (v : Block) (d : Device) → Holds d → Holds (bwrite (l.block i) v d)
  Holds-bwrite apart i lt v d h j below =
      bread-bwrite_other (l.block i) v d (l.start + j + 1) (ground (arith, apart i)) ∙ h j below

  -- Each home block holds its old or its new contents at every point of the installation.
  pub install_from-mixed :
      (rounds tail : ℕ) (d : Device)
      → tail + rounds ≤ n
      → Apart
      → Holds d
      → (x : ℕ) (old : Block) → (d.disk x ≡ old) ⊎ (d.disk x ≡ new x)
      → ((install_from rounds tail l d).disk x ≡ old)
        ⊎ ((install_from rounds tail l d).disk x ≡ new x)
  unfolding install_from
  install_from-mixed zero tail d le apart h x old m = m
  install_from-mixed (suc rounds) tail d le apart h x old m =
      let b : ℕ = l.block tail in
      let v : Block = bread (l.start + tail + 1) d in
      let d' : Device = bwrite b v d in
      install_from-mixed rounds (tail + 1) d' (omega arith) apart
        (Holds-bwrite apart tail (omega arith) v d h) x old
        (bwrite_keeps (λ w. (w ≡ old) ⊎ (w ≡ new x)) b v d x m
          (λ e. inr (h tail (omega arith) ∙ ap new e)))

  -- What is new stays new.
  pub install_from-kept :
      (rounds tail : ℕ) (d : Device)
      → tail + rounds ≤ n
      → Apart
      → Holds d
      → (x : ℕ) → d.disk x ≡ new x
      → (install_from rounds tail l d).disk x ≡ new x
  unfolding install_from
  install_from-kept zero tail d le apart h x m = m
  install_from-kept (suc rounds) tail d le apart h x m =
      let b : ℕ = l.block tail in
      let v : Block = bread (l.start + tail + 1) d in
      let d' : Device = bwrite b v d in
      install_from-kept rounds (tail + 1) d' (omega arith) apart
        (Holds-bwrite apart tail (omega arith) v d h) x
        (bwrite_keeps (λ w. w ≡ new x) b v d x m (λ e. h tail (omega arith) ∙ ap new e))

  -- With power for all of it, every block that the header names is new.
  pub install_from-new :
      (rounds tail : ℕ) (d : Device)
      → tail + rounds ≤ n
      → Apart
      → Holds d
      → rounds ≤ d.writes_left
      → (i : ℕ) → tail ≤ i
      → i < tail + rounds
      → (install_from rounds tail l d).disk (l.block i) ≡ new (l.block i)
  unfolding install_from
  install_from-new zero tail d le apart h power i from to = absurd (omega arith)
  install_from-new (suc rounds) tail d le apart h power i from to =
      let b : ℕ = l.block tail in
      let v : Block = bread (l.start + tail + 1) d in
      let d' : Device = bwrite b v d in
      let h' : Holds d' = Holds-bwrite apart tail (omega arith) v d h in
      elim (ℕ_discrete tail i) [
        | yes here ↦ rw (← here) (
            install_from-kept rounds (tail + 1) d' (omega arith) apart h' b
              (bwrite_self b v d (omega arith) ∙ h tail (omega arith)))
        | no other ↦
            install_from-new rounds (tail + 1) d' (omega arith) apart h'
              (omega (arith, bwrite-left b v d)) i (omega arith) (omega arith)
      ]

pub install_from-lost :
    (rounds tail : ℕ) (l : Log) (d : Device) → d.writes_left ≡ 0 → install_from rounds tail l d ≡ d
unfolding install_from
install_from-lost zero tail l d e = refl
install_from-lost (suc rounds) tail l d e =
    rw (bwrite-lost (l.block tail) (bread (l.start + tail + 1) d) d e)
      (install_from-lost rounds (tail + 1) l d e)
