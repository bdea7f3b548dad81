-- ===== src/Bitmap/Bits.antt =====
-- The bits of a byte, and the marks of blocks in the bitmap.
use graduation_prj.Base.{
  ℕ, zero, suc, ◌/◌, ◌%◌, ◌≤◌, ◌≡◌, ◌≢◌, refl, sym, ap, ◌∙◌, update, update_same, update_other,
  arith, ℕ_discrete,
}
use graduation_prj.Bitmap.Defs.{bpb, Disk, Superblock, bit, set_bit, clear_bit, bblock, write_byte}

pub bit-set_bit : (x k : ℕ) → bit (set_bit x k) k ≡ 1
unfolding bit set_bit
bit-set_bit x zero = omega arith
bit-set_bit x (suc k) = ap (λ y. bit y k) (omega arith) ∙ bit-set_bit (x / 2) k

pub bit-set_bit_other : (x k j : ℕ) → j ≢ k → bit (set_bit x k) j ≡ bit x j
unfolding bit set_bit
bit-set_bit_other x zero zero ne = absurd (ne refl)
bit-set_bit_other x zero (suc j) ne = ap (λ y. bit y j) (omega arith)
bit-set_bit_other x (suc k) zero ne = omega arith
bit-set_bit_other x (suc k) (suc j) ne =
    ap (λ y. bit y j) (omega arith) ∙ bit-set_bit_other (x / 2) k j (λ e. ne (ap suc e))

pub bit-clear_bit : (x k : ℕ) → bit (clear_bit x k) k ≡ 0
unfolding bit clear_bit
bit-clear_bit x zero = omega arith
bit-clear_bit x (suc k) = ap (λ y. bit y k) (omega arith) ∙ bit-clear_bit (x / 2) k

pub bit-clear_bit_other : (x k j : ℕ) → j ≢ k → bit (clear_bit x k) j ≡ bit x j
unfolding bit clear_bit
bit-clear_bit_other x zero zero ne = absurd (ne refl)
bit-clear_bit_other x zero (suc j) ne = ap (λ y. bit y j) (omega arith)
bit-clear_bit_other x (suc k) zero ne = omega arith
bit-clear_bit_other x (suc k) (suc j) ne =
    ap (λ y. bit y j) (omega arith) ∙ bit-clear_bit_other (x / 2) k j (λ e. ne (ap suc e))

pub bit-le : (x k : ℕ) → bit x k ≤ 1
unfolding bit
bit-le x zero = omega arith
bit-le x (suc k) = bit-le (x / 2) k

-- The mark of the block `b`: 1 if it is in use.
abbrev pub mark : Superblock → Disk → ℕ → ℕ
mark sb disk b = bit (disk (bblock b sb) (b % bpb / 8)) (b % bpb % 8)

abbrev with_mark : Superblock → ℕ → ℕ → Disk → Disk
with_mark sb b byte disk = write_byte (bblock b sb) (b % bpb) byte disk

pub mark-same :
    (sb : Superblock) (b byte : ℕ) (disk : Disk)
    → mark sb (with_mark sb b byte disk) b ≡ bit byte (b % bpb % 8)
mark-same sb b byte disk =
    ap (λ y. bit y (b % bpb % 8))
      (ap (λ bytes. bytes (b % bpb / 8))
          (update_same disk (bblock b sb) (update (disk (bblock b sb)) (b % bpb / 8) byte))
        ∙ update_same (disk (bblock b sb)) (b % bpb / 8) byte)

-- A byte that differs from the old one in the block's bit only.
pub mark-other :
    (sb : Superblock) (b c byte : ℕ) (disk : Disk)
    → c ≢ b
    → ((j : ℕ) → j ≢ b % bpb % 8 → bit byte j ≡ bit (disk (bblock b sb) (b % bpb / 8)) j)
    → mark sb (with_mark sb b byte disk) c ≡ mark sb disk c
mark-other sb b c byte disk ne same = elim (ℕ_discrete (bblock b sb) (bblock c sb)) [
  | no apart ↦
      ap (λ bytes. bit (bytes (c % bpb / 8)) (c % bpb % 8))
        (update_other disk (bblock b sb) (bblock c sb)
          (update (disk (bblock b sb)) (b % bpb / 8) byte) apart)
  | yes block ↦
      let at =
        ap (λ k. with_mark sb b byte disk k (c % bpb / 8)) (sym block)
        ∙ ap (λ bytes. bytes (c % bpb / 8))
            (update_same disk (bblock b sb) (update (disk (bblock b sb)) (b % bpb / 8) byte)) in
      elim (ℕ_discrete (b % bpb / 8) (c % bpb / 8)) [
        | no apart ↦
            ap (λ y. bit y (c % bpb % 8))
              (at
                ∙ update_other (disk (bblock b sb)) (b % bpb / 8) (c % bpb / 8) byte apart
                ∙ ap (λ k. disk k (c % bpb / 8)) block)
        | yes there ↦
            ap (λ y. bit y (c % bpb % 8))
              (at
                ∙ ap (update (disk (bblock b sb)) (b % bpb / 8) byte) (sym there)
                ∙ update_same (disk (bblock b sb)) (b % bpb / 8) byte)
            ∙ same (c % bpb % 8) (λ e. ne (omega (arith, block, there, e)))
            ∙ ap (λ y. bit y (c % bpb % 8))
                (ap (λ k. disk k (b % bpb / 8)) block ∙ ap (disk (bblock c sb)) there)
      ]
]

pub mark-le : (sb : Superblock) (disk : Disk) (b : ℕ) → mark sb disk b ≤ 1
mark-le sb disk b = bit-le (disk (bblock b sb) (b % bpb / 8)) (b % bpb % 8)
