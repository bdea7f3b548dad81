-- ===== src/Bio/Get.antt =====
-- What `bget` finds, and that it keeps each block in one buffer.
use graduation_prj.Base.{
  ℕ, ◌+◌, ◌≤◌, ◌≡◌, ◌≢◌, inl, inr, ◌%◌, ◌^◌, refl, sym, ap, ◌∙◌, true, false, List, [], ◌∷◌, Option,
  none, some, arith, Bool-cases, ==→eq, eq→==, if◌then◌else◌, All, Result, ok, stop, panic,
}
use mathlib.Core.Path.{subst}
use graduation_prj.Bio.Defs.{
  Buf, caches, is_unused, find_cached, take_over, recycle, bget, or_panic, or_recycle,
}
use graduation_prj.Bio.Took.{Took, InUse, TookOutcome, bget-TookOutcome}
use graduation_prj.Bio.Keys.{
  weight, copies, IsDistinct, KeptBuf, Kept, kept_buf, KeptBuf-same, Kept-same,
}

abbrev FoundIn : ℕ → ℕ → List Buf → Option (Buf × List Buf) → Type 0
FoundIn dev blockno bs none = copies dev blockno bs ≡ 0
FoundIn dev blockno bs (some (b, after)) =
    (caches dev blockno b ≡ true)
    × Kept bs after
    × ((d n : ℕ) → copies d n after ≡ copies d n bs)
    × (1 ≤ copies dev blockno after)

abbrev held : Buf → Buf
held b = record b { refcnt = (b.refcnt + 1) % 2 ^ 32 }

held-KeptBuf : (b : Buf) → KeptBuf b (held b)
held-KeptBuf b = record { place = refl; busy = λ h. (refl, refl, refl, refl, inr refl) }

FoundIn-later :
    (dev blockno : ℕ) (b : Buf) (bs : List Buf) (found : Option (Buf × List Buf))
    → caches dev blockno b ≡ false
    → FoundIn dev blockno bs found
    → FoundIn dev blockno
        (b ∷ bs)
        (elim found [ none ↦ none | some (c, after) ↦ some (c, b ∷ after) ])
FoundIn-later dev blockno b bs none h f = omega (arith, ap weight h, f)
FoundIn-later dev blockno b bs (some (c, after)) h f =
    (f.0, kept_buf (KeptBuf-same b) f.1, λ d n. omega (arith, f.2 d n), omega (arith, f.3))

find_cached-FoundIn :
    (dev blockno : ℕ) (bs : List Buf) → FoundIn dev blockno bs (find_cached dev blockno bs)
unfolding find_cached
find_cached-FoundIn dev blockno [] = refl
find_cached-FoundIn dev blockno (b ∷ bs) = elim (Bool-cases (caches dev blockno b)) [
  | inl h ↦
      rw h (h, kept_buf (held-KeptBuf b) (Kept-same bs), λ d n. refl, omega (arith, ap weight h))
  | inr h ↦ rw h (
      FoundIn-later dev blockno b bs (find_cached dev blockno bs) h
        (find_cached-FoundIn dev blockno bs))
]

abbrev Recycled : ℕ → ℕ → List Buf → Option (Buf × List Buf) → Type 0
Recycled dev blockno bs none = All (λ b. is_unused b ≡ false) bs
Recycled dev blockno bs (some (b, after)) =
    (caches dev blockno b ≡ true)
    × Kept bs after
    × ((d n : ℕ) → copies d n after ≤ copies d n bs + weight (caches d n b))
    × (1 ≤ copies dev blockno after)

take_over-KeptBuf :
    (dev blockno : ℕ) (b : Buf) → is_unused b ≡ true → KeptBuf b (take_over dev blockno b)
take_over-KeptBuf dev blockno b h = record {
  place = refl;
  busy = λ u. absurd (ground (arith, h, u));
}

take_over-caches : (dev blockno : ℕ) (b : Buf) → caches dev blockno (take_over dev blockno b) ≡ true
take_over-caches dev blockno b = ground (arith, eq→== dev dev refl, eq→== blockno blockno refl)

Recycled-here :
    (dev blockno : ℕ) (b : Buf) (bs : List Buf) (found : Option (Buf × List Buf))
    → Recycled dev blockno bs found
    → Recycled dev blockno (b ∷ bs) (elim found [
      | some (c, after) ↦ some (c, b ∷ after)
      | none ↦
          if is_unused b then some (take_over dev blockno b, take_over dev blockno b ∷ bs) else none
    ])
Recycled-here dev blockno b bs (some (c, after)) r =
    (r.0, kept_buf (KeptBuf-same b) r.1, λ d n. omega (arith, r.2 d n), omega (arith, r.3))
Recycled-here dev blockno b bs none r = elim (Bool-cases (is_unused b)) [
  | inl h ↦ rw h (
    take_over-caches dev blockno b,
    kept_buf (take_over-KeptBuf dev blockno b h) (Kept-same bs),
    λ d n. omega arith,
    omega (arith, ap weight (take_over-caches dev blockno b)),
  )
  | inr h ↦ rw h (h, r)
]

recycle-Recycled :
    (dev blockno : ℕ) (bs : List Buf) → Recycled dev blockno bs (recycle dev blockno bs)
unfolding recycle
recycle-Recycled dev blockno [] = tt
recycle-Recycled dev blockno (b ∷ bs) =
    Recycled-here dev blockno b bs (recycle dev blockno bs) (recycle-Recycled dev blockno bs)

-- What is in which buffer after `bget`.
abbrev KeysOutcome : ℕ → ℕ → List Buf → Result (Buf × List Buf) → Type 0
KeysOutcome dev blockno bs (ok (b, after)) =
    (caches dev blockno b ≡ true)
    × Kept bs after
    × IsDistinct after
    × (copies dev blockno after ≡ 1)
KeysOutcome dev blockno bs (stop s) =
    (copies dev blockno bs ≡ 0) × All (λ b. is_unused b ≡ false) bs × (s ≡ panic)

Recycled-IsDistinct :
    (dev blockno : ℕ) (b : Buf) (bs after : List Buf)
    → IsDistinct bs
    → copies dev blockno bs ≡ 0
    → Recycled dev blockno bs (some (b, after))
    → IsDistinct after
Recycled-IsDistinct dev blockno b bs after distinct none_there r d n ne =
    elim (Bool-cases (caches d n b)) [
      | inr h ↦ omega (arith, r.2 d n, ap weight h, distinct d n ne)
      | inl h ↦
          let same_dev =
            sym (==→eq b.dev dev (ground (arith, r.0))) ∙ ==→eq b.dev d (ground (arith, h)) in
          let same_block =
            sym (==→eq b.blockno blockno (ground (arith, r.0)))
            ∙ ==→eq b.blockno n (ground (arith, h)) in
          let zero_there : copies d n bs ≡ 0 =
            subst (λ x. copies x n bs ≡ 0) same_dev
              (subst (λ x. copies dev x bs ≡ 0) same_block none_there) in
          omega (arith, r.2 d n, ap weight h, zero_there)
    ]

recycle-KeysOutcome :
    (dev blockno : ℕ) (bs : List Buf) (found : Option (Buf × List Buf))
    → dev ≢ 0
    → IsDistinct bs
    → copies dev blockno bs ≡ 0
    → Recycled dev blockno bs found
    → KeysOutcome dev blockno bs (or_panic found)
recycle-KeysOutcome dev blockno bs none ne distinct none_there r = (none_there, r, refl)
recycle-KeysOutcome dev blockno bs (some (b, after)) ne distinct none_there r =
    let one = Recycled-IsDistinct dev blockno b bs after distinct none_there r in
    (r.0, r.1, one, omega (arith, one dev blockno ne, r.3))

found-KeysOutcome :
    (dev blockno : ℕ) (bs : List Buf) (found : Option (Buf × List Buf))
    → dev ≢ 0
    → IsDistinct bs
    → FoundIn dev blockno bs found
    → KeysOutcome dev blockno bs (or_recycle dev blockno bs found)
found-KeysOutcome dev blockno bs none ne distinct f =
    recycle-KeysOutcome dev blockno bs (recycle dev blockno bs) ne distinct f
      (recycle-Recycled dev blockno bs)
found-KeysOutcome dev blockno bs (some (b, after)) ne distinct f =
    let one : IsDistinct after = λ d n nz. omega (arith, f.2 d n, distinct d n nz) in
    (f.0, f.1, one, omega (arith, one dev blockno ne, f.3))

bget-KeysOutcome :
    (dev blockno : ℕ) (bs : List Buf)
    → dev ≢ 0
    → IsDistinct bs
    → KeysOutcome dev blockno bs (bget dev blockno bs)
unfolding bget
bget-KeysOutcome dev blockno bs ne distinct =
    found-KeysOutcome dev blockno bs (find_cached dev blockno bs) ne distinct
      (find_cached-FoundIn dev blockno bs)

-- How `bget` may end.
abbrev pub GetOutcome : ℕ → ℕ → List Buf → Result (Buf × List Buf) → Type 0
GetOutcome dev blockno bs (ok (b, after)) =
    (caches dev blockno b ≡ true)
    × Kept bs after
    × IsDistinct after
    × (copies dev blockno after ≡ 1)
    × Took dev blockno bs b after
GetOutcome dev blockno bs (stop s) = (copies dev blockno bs ≡ 0) × All InUse bs × (s ≡ panic)

both-GetOutcome :
    (dev blockno : ℕ) (bs : List Buf) (r : Result (Buf × List Buf))
    → KeysOutcome dev blockno bs r
    → TookOutcome dev blockno bs r
    → GetOutcome dev blockno bs r
both-GetOutcome dev blockno bs (ok (b, after)) (here, kept, distinct, one) took =
    (here, kept, distinct, one, took)
both-GetOutcome dev blockno bs (stop why) (gone, _, e) busy = (gone, busy, e)

-- On a list with at most one buffer for each block, `bget` of a block of a real device (the device
-- number is not 0) has two ends. It returns a buffer that holds the block, and then exactly one
-- buffer of the list does, each other block still is in at most one, and each buffer in use or
-- modified has kept its block and its flags. The buffer takes the place of one in the list, the others
-- stand as before: it is the one that held the block, with one reference more and otherwise the
-- same, or the least recently used that is neither in use nor modified, with one reference,
-- neither valid nor modified. Or it panics, and then no buffer holds the block and each one is in
-- use or modified.
pub bget-GetOutcome :
    (dev blockno : ℕ) (bs : List Buf)
    → dev ≢ 0
    → IsDistinct bs
    → GetOutcome dev blockno bs (bget dev blockno bs)
bget-GetOutcome dev blockno bs ne distinct =
    both-GetOutcome dev blockno bs (bget dev blockno bs)
      (bget-KeysOutcome dev blockno bs ne distinct) (bget-TookOutcome dev blockno bs)
