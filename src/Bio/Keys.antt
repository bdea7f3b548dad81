-- ===== src/Bio/Keys.antt =====
-- How many buffers hold a block.
use graduation_prj.Base.{
  ℕ, zero, suc, ◌+◌, ◌≤◌, ◌≡◌, ◌≢◌, ◌⊎◌, inl, ◌%◌, ◌^◌, refl, Bool, true, false, List, [], ◌∷◌,
  arith,
}
use graduation_prj.Bio.Defs.{Buf, caches, is_unused, binit}

abbrev pub weight : Bool → ℕ
weight true = 1
weight false = 0

abbrev pub copies : ℕ → ℕ → List Buf → ℕ
copies dev blockno [] = 0
copies dev blockno (b ∷ bs) = weight (caches dev blockno b) + copies dev blockno bs

-- At most one buffer holds any block. A buffer that has held none has the device number 0.
abbrev pub IsDistinct : List Buf → Type 0
IsDistinct bs = (dev blockno : ℕ) → dev ≢ 0 → copies dev blockno bs ≤ 1

-- A buffer in use, or modified, keeps its block, its contents and its references.
pub record KeptBuf (b c : Buf) : Type 0 where
  pub place : c.id ≡ b.id
  pub busy :
      is_unused b ≡ false
      → (c.dev ≡ b.dev)
        × (c.blockno ≡ b.blockno)
        × (c.valid ≡ b.valid)
        × (c.dirty ≡ b.dirty)
        × ((c.refcnt ≡ b.refcnt) ⊎ (c.refcnt ≡ (b.refcnt + 1) % 2 ^ 32))

pub data Kept : List Buf → List Buf → Type 0 where
  kept_none : Kept [] []
  kept_buf : {b c : Buf} {bs cs : List Buf} → KeptBuf b c → Kept bs cs → Kept (b ∷ bs) (c ∷ cs)

pub KeptBuf-same : (b : Buf) → KeptBuf b b
KeptBuf-same b = record { place = refl; busy = λ h. (refl, refl, refl, refl, inl refl) }

pub Kept-same : (bs : List Buf) → Kept bs bs
Kept-same [] = kept_none
Kept-same (b ∷ bs) = kept_buf (KeptBuf-same b) (Kept-same bs)

binit-copies : (n dev blockno : ℕ) → dev ≢ 0 → copies dev blockno (binit n) ≡ 0
unfolding binit
binit-copies zero dev blockno ne = refl
binit-copies (suc n) dev blockno ne = ground (arith, binit-copies n dev blockno ne)

pub binit-IsDistinct : (n : ℕ) → IsDistinct (binit n)
binit-IsDistinct n dev blockno ne = omega (arith, binit-copies n dev blockno ne)
