-- ===== src/Bitmap/Blocks.antt =====
-- What balloc and bfree do to the marks of all blocks.
use graduation_prj.Base.{
  ℕ, zero, suc, ◌+◌, ◌-◌, ◌*◌, ◌/◌, ◌%◌, ◌≤◌, ◌<◌, ◌≡◌, ◌≢◌, inl, inr, refl, sym, ap, ap₂, ◌∙◌,
  Option, none, some, update, update_same, update_other, arith, ℕ_discrete, Bool-cases, ltb, ltb→lt,
  ltb→le, ◌==◌, ==→eq, ==→ne, Result, ok, stop, panic,
}
use mathlib.Core.Path.{subst}
use graduation_prj.Bitmap.Defs.{
  bpb, Disk, Superblock, bit, set_bit, clear_bit, bblock, write_byte, bzero, find_bit, take_block,
  or_next, balloc_from, balloc, bfree,
}
use graduation_prj.Bitmap.Bits.{
  bit-set_bit, bit-set_bit_other, bit-clear_bit, bit-clear_bit_other, bit-le, mark, mark-same,
  mark-other,
}

abbrev FoundBit : ℕ → ℕ → ℕ → ℕ → (ℕ → ℕ) → Option ℕ → Type 0
FoundBit rounds bi b size bytes none =
    (k : ℕ) → bi ≤ k → k < bi + rounds → b + k < size → bit (bytes (k / 8)) (k % 8) ≢ 0
FoundBit rounds bi b size bytes (some k) =
    (k < bi + rounds) × (b + k < size) × (bit (bytes (k / 8)) (k % 8) ≡ 0)

FoundBit-later :
    (rounds bi b size : ℕ) (bytes : ℕ → ℕ) (found : Option ℕ)
    → bit (bytes (bi / 8)) (bi % 8) ≢ 0
    → FoundBit rounds (bi + 1) b size bytes found
    → FoundBit (suc rounds) bi b size bytes found
FoundBit-later rounds bi b size bytes none ne f = λ k le lt inside. elim (ℕ_discrete bi k) [
  | yes e ↦ subst (λ m. bit (bytes (m / 8)) (m % 8) ≢ 0) e ne
  | no apart ↦ f k (omega (arith, le, apart)) (omega (arith, lt)) inside
]
FoundBit-later rounds bi b size bytes (some k) ne f = (omega (arith, f.0), f.1, f.2)

find_bit-FoundBit :
    (rounds bi b size : ℕ) (bytes : ℕ → ℕ)
    → FoundBit rounds bi b size bytes (find_bit rounds bi b size bytes)
unfolding find_bit
find_bit-FoundBit zero bi b size bytes = λ k le lt inside. absurd (omega (arith, le, lt))
find_bit-FoundBit (suc rounds) bi b size bytes = elim (Bool-cases (ltb (b + bi) size)) [
  | inr h ↦ rw h (λ k le lt inside. absurd (omega (arith, le, inside, ltb→le (b + bi) size h)))
  | inl h ↦ elim (Bool-cases (bit (bytes (bi / 8)) (bi % 8) == 0)) [
    | inl free ↦ rw h (
        rw free (omega arith, ltb→lt (b + bi) size h, ==→eq (bit (bytes (bi / 8)) (bi % 8)) 0 free))
    | inr used ↦ rw h (
        rw used (
          FoundBit-later rounds bi b size bytes (find_bit rounds (bi + 1) b size bytes)
            (==→ne (bit (bytes (bi / 8)) (bi % 8)) 0 used)
            (find_bit-FoundBit rounds (bi + 1) b size bytes)))
  ]
]

-- The bitmap's own blocks are in use.
abbrev pub Reserved : Superblock → Disk → Type 0
Reserved sb disk = (c : ℕ) → c < sb.size → mark sb disk (bblock c sb) ≡ 1

-- The block `n` was free and is now in use and zero, no other block's mark differs, and nothing else
-- changes but the block of the bitmap.
pub record Taken (sb : Superblock) (disk : Disk) (n : ℕ) (after : Disk) : Type 0 where
  pub inside : n < sb.size
  pub free : mark sb disk n ≡ 0
  pub used : mark sb after n ≡ 1
  pub others : (c : ℕ) → c < sb.size → c ≢ n → mark sb after c ≡ mark sb disk c
  pub zeroed : (i : ℕ) → after n i ≡ 0
  pub untouched : (b : ℕ) → b ≢ n → b ≢ bblock n sb → after b ≡ disk b

abbrev pub BallocOutcome : Superblock → Disk → Result (ℕ × Disk) → Type 0
BallocOutcome sb disk (ok (n, after)) = Taken sb disk n after
BallocOutcome sb disk (stop s) = (s ≡ panic) × ((c : ℕ) → c < sb.size → mark sb disk c ≡ 1)

module _ (sb : Superblock) (disk : Disk) where
  abbrev marked : ℕ → Disk
  marked n =
      write_byte (bblock n sb) (n % bpb) (set_bit (disk (bblock n sb) (n % bpb / 8)) (n % bpb % 8))
        disk

  -- Zeroing a free block leaves the marks alone.
  bzero-mark :
      (n c : ℕ)
      → Reserved sb disk
      → mark sb disk n ≡ 0
      → c < sb.size
      → mark sb (bzero n (marked n)) c ≡ mark sb (marked n) c
  bzero-mark n c reserved free lt =
      let apart : n ≢ bblock c sb =
        λ e. omega (arith, reserved c lt, subst (λ m. mark sb disk m ≡ 0) e free) in
      ap (λ bytes. bit (bytes (c % bpb / 8)) (c % bpb % 8))
        (update_other (marked n) n (bblock c sb) (λ _. 0) apart)

  taken :
      (n : ℕ)
      → Reserved sb disk
      → n < sb.size
      → mark sb disk n ≡ 0
      → Taken sb disk n (bzero n (marked n))
  taken n reserved lt free = record {
    inside = lt;
    free = free;
    used =
        bzero-mark n n reserved free lt
        ∙ mark-same sb n (set_bit (disk (bblock n sb) (n % bpb / 8)) (n % bpb % 8)) disk
        ∙ bit-set_bit (disk (bblock n sb) (n % bpb / 8)) (n % bpb % 8);
    others = λ c c_lt ne.
        bzero-mark n c reserved free c_lt
        ∙ mark-other sb n c (set_bit (disk (bblock n sb) (n % bpb / 8)) (n % bpb % 8)) disk ne
            (bit-set_bit_other (disk (bblock n sb) (n % bpb / 8)) (n % bpb % 8));
    zeroed = λ i. ap (λ bytes. bytes i) (update_same (marked n) n (λ _. 0));
    untouched = λ b ne apart.
        update_other (marked n) n b (λ _. 0) (λ e. ne (sym e))
        ∙ update_other disk (bblock n sb) b
            (update (disk (bblock n sb)) (n % bpb / 8)
              (set_bit (disk (bblock n sb) (n % bpb / 8)) (n % bpb % 8)))
            (λ e. apart (sym e));
  }

  take_block-marked :
      (b bi : ℕ)
      → b % bpb ≡ 0
      → bi < bpb
      → (b + bi, bzero (b + bi) (marked (b + bi))) ≡ take_block b bi sb disk
  unfolding take_block
  take_block-marked b bi start lt =
      ap₂
        (λ block i.
          (b + bi, bzero (b + bi) (write_byte block i (set_bit (disk block (i / 8)) (i % 8)) disk)))
        (omega (arith, start, lt)) (omega (arith, start, lt))

  or_next-BallocOutcome :
      (b : ℕ) (found : Option ℕ) (next : Result (ℕ × Disk))
      → Reserved sb disk
      → b % bpb ≡ 0
      → FoundBit bpb 0 b sb.size (disk (bblock b sb)) found
      → (found ≡ none → BallocOutcome sb disk next)
      → BallocOutcome sb disk (or_next b sb disk found next)
  or_next-BallocOutcome b none next reserved start f more = more refl
  or_next-BallocOutcome b (some bi) next reserved start f more =
      let lt : bi < bpb = omega (arith, f.0) in
      let free : mark sb disk (b + bi) ≡ 0 =
        ap₂ (λ block i. bit (disk block (i / 8)) (i % 8)) (omega (arith, start, lt))
          (omega (arith, start, lt))
        ∙ f.2 in
      subst (λ r. BallocOutcome sb disk (ok r)) (take_block-marked b bi start lt)
        (taken (b + bi) reserved f.1 free)

  -- No block below `b` is free.
  abbrev FullBelow : ℕ → Type 0
  FullBelow b = (c : ℕ) → c < b → c < sb.size → mark sb disk c ≡ 1

  full_next :
      (b : ℕ)
      → b % bpb ≡ 0
      → FullBelow b
      → FoundBit bpb 0 b sb.size (disk (bblock b sb)) none
      → FullBelow (b + bpb)
  full_next b start full f c lt inside = elim (Bool-cases (ltb c b)) [
    | inl h ↦ full c (ltb→lt c b h) inside
    | inr h ↦
        let le = ltb→le c b h in
        let used = f (c - b) (omega arith) (omega (arith, lt, le)) (omega (arith, inside, le)) in
        let same : mark sb disk c ≡ bit (disk (bblock b sb) ((c - b) / 8)) ((c - b) % 8) =
          ap₂ (λ block i. bit (disk block (i / 8)) (i % 8)) (omega (arith, start, lt, le))
            (omega (arith, start, lt, le)) in
        omega (arith, same, used, bit-le (disk (bblock b sb) ((c - b) / 8)) ((c - b) % 8))
  ]

  balloc_from-BallocOutcome :
      (rounds b : ℕ)
      → Reserved sb disk
      → b % bpb ≡ 0
      → FullBelow b
      → sb.size < b + rounds * bpb
      → BallocOutcome sb disk (balloc_from rounds b sb disk)
  unfolding balloc_from
  balloc_from-BallocOutcome zero b reserved start full enough =
      (refl, λ c lt. full c (omega (arith, lt, enough)) lt)
  balloc_from-BallocOutcome (suc rounds) b reserved start full enough =
      elim (Bool-cases (ltb b sb.size)) [
        | inr h ↦ rw h (refl, λ c lt. full c (omega (arith, lt, ltb→le b sb.size h)) lt)
        | inl h ↦
            let f = find_bit-FoundBit bpb 0 b sb.size (disk (bblock b sb)) in
            rw h (
              or_next-BallocOutcome b (find_bit bpb 0 b sb.size (disk (bblock b sb)))
                (balloc_from rounds (b + bpb) sb disk) reserved start f
                (λ e.
                  balloc_from-BallocOutcome rounds (b + bpb) reserved (omega (arith, start))
                    (full_next b start full
                      (subst (FoundBit bpb 0 b sb.size (disk (bblock b sb))) e f))
                    (omega (arith, enough))))
      ]

-- On a disk whose bitmap marks its own blocks as in use, `balloc` returns a block that was free, marks
-- it, zeroes it, and changes no other block's mark; or it panics, and then every block is in use.
pub balloc-BallocOutcome :
    (sb : Superblock) (disk : Disk) → Reserved sb disk → BallocOutcome sb disk (balloc sb disk)
unfolding balloc
balloc-BallocOutcome sb disk reserved =
    balloc_from-BallocOutcome sb disk (sb.size / bpb + 1) 0 reserved (omega arith)
      (λ c lt inside. absurd (omega (arith, lt))) (omega arith)

abbrev pub BfreeOutcome : Superblock → Disk → ℕ → Result Disk → Type 0
BfreeOutcome sb disk b (ok after) =
    (mark sb disk b ≡ 1)
    × (mark sb after b ≡ 0)
    × ((c : ℕ) → c ≢ b → mark sb after c ≡ mark sb disk c)
BfreeOutcome sb disk b (stop s) = (s ≡ panic) × (mark sb disk b ≡ 0)

-- `bfree` of a block in use clears its mark and changes no other; it panics only for a free block.
pub bfree-BfreeOutcome :
    (sb : Superblock) (disk : Disk) (b : ℕ) → BfreeOutcome sb disk b (bfree b sb disk)
unfolding bfree
bfree-BfreeOutcome sb disk b =
    let byte = disk (bblock b sb) (b % bpb / 8) in
    elim (Bool-cases (bit byte (b % bpb % 8) == 0)) [
      | inl h ↦ rw h (refl, ==→eq (bit byte (b % bpb % 8)) 0 h)
      | inr h ↦ rw h (
        omega (arith, bit-le byte (b % bpb % 8), ==→ne (bit byte (b % bpb % 8)) 0 h),
        mark-same sb b (clear_bit byte (b % bpb % 8)) disk ∙ bit-clear_bit byte (b % bpb % 8),
        λ c ne.
            mark-other sb b c (clear_bit byte (b % bpb % 8)) disk ne
              (bit-clear_bit_other byte (b % bpb % 8)),
      )
    ]
