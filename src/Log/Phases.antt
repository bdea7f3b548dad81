-- ===== src/Log/Phases.antt =====
-- What each loop of commit does to the disk, for any number of writes before the power fails.
use graduation_prj.Base.{
  ℕ, zero, suc, ◌+◌, ◌-◌, ◌≤◌, ◌<◌, ◌≡◌, ◌≢◌, ◌⊎◌, inl, refl, none, update, update_same,
  update_other, arith, ap, ◌∙◌, sym, ℕ_discrete, dec_le,
}
use mathlib.Core.Path.{subst}
use graduation_prj.Log.Defs.{
  Block, Log, Device, bread, bwrite, write_log_from, put_blocks, get_blocks,
}

-- Before the power fails a write takes effect, and counts.
pub bwrite-done :
    (b : ℕ) (v : Block) (d : Device) {left : ℕ}
    → d.writes_left ≡ suc left
    → bwrite b v d
      ≡ record { disk = update d.disk b v; cache = update d.cache b none; writes_left = left }
unfolding bwrite
bwrite-done b v d e = ground arith

pub bwrite-lost : (b : ℕ) (v : Block) (d : Device) → d.writes_left ≡ 0 → bwrite b v d ≡ d
unfolding bwrite
bwrite-lost b v d e = ground arith

pub bwrite-left : (b : ℕ) (v : Block) (d : Device) → (bwrite b v d).writes_left ≡ d.writes_left - 1
unfolding bwrite
bwrite-left b v d = ground arith

-- A write changes no other block, nor what is read of one.
pub bwrite-other :
    (b : ℕ) (v : Block) (d : Device) (x : ℕ) → b ≢ x → (bwrite b v d).disk x ≡ d.disk x
unfolding bwrite
bwrite-other b v d x ne = ground arith

pub bread-bwrite_other :
    (b : ℕ) (v : Block) (d : Device) (x : ℕ) → b ≢ x → bread x (bwrite b v d) ≡ bread x d
unfolding bwrite bread
bread-bwrite_other b v d x ne = ground arith

pub bwrite_self : (b : ℕ) (v : Block) (d : Device) → 1 ≤ d.writes_left → (bwrite b v d).disk b ≡ v
unfolding bwrite
bwrite_self b v d h = ground arith

pub bread-bwrite_self :
    (b : ℕ) (v : Block) (d : Device) → 1 ≤ d.writes_left → bread b (bwrite b v d) ≡ v
unfolding bwrite bread
bread-bwrite_self b v d h = ground arith

-- The words of a header come back as they were written.
pub put_blocks-below :
    (rounds i : ℕ) (block : ℕ → ℕ) (hb : Block) (j : ℕ)
    → j ≤ i
    → put_blocks rounds i block hb j ≡ hb j
unfolding put_blocks
put_blocks-below zero i block hb j h = refl
put_blocks-below (suc rounds) i block hb j h =
    put_blocks-below rounds (i + 1) block (update hb (i + 1) (block i)) j (omega arith)
    ∙ update_other hb (i + 1) j (block i) (omega arith)

pub put_blocks-at :
    (rounds i : ℕ) (block : ℕ → ℕ) (hb : Block) (j : ℕ)
    → i ≤ j
    → j < i + rounds
    → put_blocks rounds i block hb (j + 1) ≡ block j
unfolding put_blocks
put_blocks-at zero i block hb j h lt = absurd (omega arith)
put_blocks-at (suc rounds) i block hb j h lt = elim (ℕ_discrete i j) [
  | yes here ↦ rw (← here) (
      put_blocks-below rounds (i + 1) block (update hb (i + 1) (block i)) (i + 1) (omega arith)
      ∙ update_same hb (i + 1) (block i))
  | no other ↦
      put_blocks-at rounds (i + 1) block (update hb (i + 1) (block i)) j (omega arith) (omega arith)
]

pub get_blocks-below :
    (rounds i : ℕ) (hb : Block) (block : ℕ → ℕ) (j : ℕ)
    → j < i
    → get_blocks rounds i hb block j ≡ block j
unfolding get_blocks
get_blocks-below zero i hb block j h = refl
get_blocks-below (suc rounds) i hb block j h =
    get_blocks-below rounds (i + 1) hb (update block i (hb (i + 1))) j (omega arith)
    ∙ update_other block i j (hb (i + 1)) (omega arith)

pub get_blocks-at :
    (rounds i : ℕ) (hb : Block) (block : ℕ → ℕ) (j : ℕ)
    → i ≤ j
    → j < i + rounds
    → get_blocks rounds i hb block j ≡ hb (j + 1)
unfolding get_blocks
get_blocks-at zero i hb block j h lt = absurd (omega arith)
get_blocks-at (suc rounds) i hb block j h lt = elim (ℕ_discrete i j) [
  | yes here ↦ rw (← here) (
      get_blocks-below rounds (i + 1) hb (update block i (hb (i + 1))) i (omega arith)
      ∙ update_same block i (hb (i + 1)))
  | no other ↦
      get_blocks-at rounds (i + 1) hb (update block i (hb (i + 1))) j (omega arith) (omega arith)
]

-- Writing the log touches only the log's blocks from `tail` on.
pub write_log_from-other :
    (rounds tail : ℕ) (l : Log) (d : Device) (x : ℕ)
    → (x ≤ l.start + tail) ⊎ (l.start + tail + rounds < x)
    → (write_log_from rounds tail l d).disk x ≡ d.disk x
unfolding write_log_from
write_log_from-other zero tail l d x h = refl
write_log_from-other (suc rounds) tail l d x h =
    let b : ℕ = l.start + tail + 1 in
    let v : Block = bread (l.block tail) d in
    write_log_from-other rounds (tail + 1) l (bwrite b v d) x (ground arith)
    ∙ bwrite-other b v d x (ground arith)

pub write_log_from-left :
    (rounds tail : ℕ) (l : Log) (d : Device)
    → (write_log_from rounds tail l d).writes_left ≡ d.writes_left - rounds
unfolding write_log_from
write_log_from-left zero tail l d = omega arith
write_log_from-left (suc rounds) tail l d =
    let b : ℕ = l.start + tail + 1 in
    let v : Block = bread (l.block tail) d in
    omega (arith, write_log_from-left rounds (tail + 1) l (bwrite b v d), bwrite-left b v d)

-- With power for all of it, each log block holds what its home block was read as.
pub write_log_from-at :
    (rounds tail : ℕ) (l : Log) (d : Device)
    → rounds ≤ d.writes_left
    → ((i : ℕ)
        → i < tail + rounds
        → (l.block i ≤ l.start + tail) ⊎ (l.start + tail + rounds < l.block i))
    → (i : ℕ) → tail ≤ i
    → i < tail + rounds
    → (write_log_from rounds tail l d).disk (l.start + i + 1) ≡ bread (l.block i) d
unfolding write_log_from
write_log_from-at zero tail l d power home i h lt = absurd (omega arith)
write_log_from-at (suc rounds) tail l d power home i h lt =
    let b : ℕ = l.start + tail + 1 in
    let v : Block = bread (l.block tail) d in
    let d' : Device = bwrite b v d in
    elim (ℕ_discrete tail i) [
      | yes here ↦ rw (← here) (
          write_log_from-other rounds (tail + 1) l d' b (inl (omega arith))
          ∙ bwrite_self b v d (omega arith))
      | no other ↦
          write_log_from-at rounds (tail + 1) l d' (omega (arith, bwrite-left b v d))
            (λ j below. ground (arith, home j)) i (omega arith) (omega arith)
          ∙ bread-bwrite_other b v d (l.block i) (ground (arith, home i))
    ]

-- After a write each block is as it was, or the one written.
pub bwrite_keeps :
    (P : Block → Type 0) (b : ℕ) (v : Block) (d : Device) (x : ℕ)
    → P (d.disk x)
    → (b ≡ x → P v)
    → P ((bwrite b v d).disk x)
bwrite_keeps P b v d x old new = elim (ℕ_discrete b x) [
  | yes e ↦ elim (dec_le 1 d.writes_left) [
    | yes power ↦ subst P (sym (bwrite_self b v d power) ∙ ap (bwrite b v d).disk e) (new e)
    | no lost ↦ rw (bwrite-lost b v d (omega arith)) old
  ]
  | no ne ↦ subst P (sym (bwrite-other b v d x ne)) old
]

pub bread-write_log_from_other :
    (rounds tail : ℕ) (l : Log) (d : Device) (x : ℕ)
    → (x ≤ l.start + tail) ⊎ (l.start + tail + rounds < x)
    → bread x (write_log_from rounds tail l d) ≡ bread x d
unfolding write_log_from
bread-write_log_from_other zero tail l d x h = refl
bread-write_log_from_other (suc rounds) tail l d x h =
    let b : ℕ = l.start + tail + 1 in
    let v : Block = bread (l.block tail) d in
    bread-write_log_from_other rounds (tail + 1) l (bwrite b v d) x (ground arith)
    ∙ bread-bwrite_other b v d x (ground arith)

-- The buffers of the log's blocks hold what was written to them.
pub bread-write_log_from :
    (rounds tail : ℕ) (l : Log) (d : Device)
    → rounds ≤ d.writes_left
    → ((i : ℕ)
        → i < tail + rounds
        → (l.block i ≤ l.start + tail) ⊎ (l.start + tail + rounds < l.block i))
    → (i : ℕ) → tail ≤ i
    → i < tail + rounds
    → bread (l.start + i + 1) (write_log_from rounds tail l d) ≡ bread (l.block i) d
unfolding write_log_from
bread-write_log_from zero tail l d power home i h lt = absurd (omega arith)
bread-write_log_from (suc rounds) tail l d power home i h lt =
    let b : ℕ = l.start + tail + 1 in
    let v : Block = bread (l.block tail) d in
    let d' : Device = bwrite b v d in
    elim (ℕ_discrete tail i) [
      | yes here ↦ rw (← here) (
          bread-write_log_from_other rounds (tail + 1) l d' b (inl (omega arith))
          ∙ bread-bwrite_self b v d (omega arith))
      | no other ↦
          bread-write_log_from rounds (tail + 1) l d' (omega (arith, bwrite-left b v d))
            (λ j below. ground (arith, home j)) i (omega arith) (omega arith)
          ∙ bread-bwrite_other b v d (l.block i) (ground (arith, home i))
    ]
