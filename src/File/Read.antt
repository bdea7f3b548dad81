-- ===== src/File/Read.antt =====
-- readi: on blocks that are there it returns the bytes of the file and changes nothing.
use graduation_prj.Base.{
  ℕ, zero, suc, ◌+◌, ◌-◌, ◌*◌, ◌/◌, ◌%◌, ◌^◌, ◌≤◌, ◌<◌, ◌≡◌, ◌≢◌, min, refl, sym, ap, ap₂, ◌∙◌,
  List, [], ◌∷◌, ◌++◌, Option, some, arith, ℕ_discrete, dec_lt, ltb, lt→ltb, le→ltb, ne→==,
  if◌then◌else◌, Result, ok, stop, panic, ◌>>=◌,
}
use mathlib.Core.Path.{subst}
use graduation_prj.Bitmap.Defs.{Disk, Superblock}
use graduation_prj.File.Words.{get_word}
use graduation_prj.File.Defs.{
  Inode, bmap, alloc_slot, alloc_entry, slice, read_from, readi, t_dev, DevRead,
}
use graduation_prj.File.Slots.{slot, slot-entry, slot-none}
use graduation_prj.File.Bmap.{index}
use graduation_prj.File.Contents.{content, Filled}

alloc_slot_found :
    (sb : Superblock) (k : ℕ) (ip : Inode) (disk : Disk)
    → ip.addrs k ≢ 0
    → alloc_slot sb k ip disk ≡ ok (ip.addrs k, ip, disk)
unfolding alloc_slot
alloc_slot_found sb k ip disk ne = rw (ne→== (ip.addrs k) 0 ne) refl

alloc_entry_found :
    (sb : Superblock) (indirect bn : ℕ) (disk : Disk)
    → get_word (disk indirect) (4 * bn) ≢ 0
    → alloc_entry sb indirect bn disk ≡ ok (get_word (disk indirect) (4 * bn), disk)
unfolding alloc_entry
alloc_entry_found sb indirect bn disk ne = rw (ne→== (get_word (disk indirect) (4 * bn)) 0 ne) refl

-- The slots of the two kinds of block.
slot_low : (addrs : ℕ → ℕ) (disk : Disk) (bn : ℕ) → bn < 12 → slot addrs disk (index bn) ≡ addrs bn
slot_low addrs disk bn lt = ground arith

suc_sub : (bn : ℕ) → 12 ≤ bn → bn + 1 - 13 ≡ bn - 12
suc_sub bn le = omega arith

index_high : (bn : ℕ) → 12 ≤ bn → index bn ≡ bn + 1
index_high bn le = rw (le→ltb bn 12 le) refl

slot_high :
    (addrs : ℕ → ℕ) (disk : Disk) (bn : ℕ)
    → 12 ≤ bn
    → bn < 140
    → addrs 12 ≢ 0
    → slot addrs disk (index bn) ≡ get_word (disk (addrs 12)) (4 * (bn - 12))
slot_high addrs disk bn le lt ne =
    ap (slot addrs disk) (index_high bn le)
    ∙ slot-entry addrs disk (bn + 1) (omega (arith, le)) (omega (arith, lt)) ne
    ∙ ap (λ k. get_word (disk (addrs 12)) (4 * k)) (suc_sub bn le)

-- bmap of a block that is there.
bmap_found :
    (sb : Superblock) (bn : ℕ) (ip : Inode) (disk : Disk)
    → bn < 140
    → slot ip.addrs disk (index bn) ≢ 0
    → bmap sb bn ip disk ≡ ok (slot ip.addrs disk (index bn), ip, disk)
unfolding bmap
bmap_found sb bn ip disk lt there = elim (dec_lt bn 12) [
  | yes low ↦
      let e = slot_low ip.addrs disk bn low in
      ap (λ b. if b then alloc_slot sb bn ip disk else high) (lt→ltb bn 12 low)
      ∙ alloc_slot_found sb bn ip disk (λ z. there (e ∙ z))
      ∙ ap (λ a. ok (a, ip, disk)) (sym e)
  | no over ↦
      let le : 12 ≤ bn = omega (arith, over) in
      let some_indirect : ip.addrs 12 ≢ 0 = λ z. there (
        ap (slot ip.addrs disk) (index_high bn le)
        ∙ slot-none ip.addrs disk (bn + 1) (omega (arith, le)) z) in
      let e = slot_high ip.addrs disk bn le lt some_indirect in
      ap (λ b. if b then alloc_slot sb bn ip disk else high) (le→ltb bn 12 le)
      ∙ ap (λ b. if b then through (alloc_slot sb 12 ip disk) else stop panic)
          (lt→ltb (bn - 12) 128 (omega (arith, lt)))
      ∙ ap through (alloc_slot_found sb 12 ip disk some_indirect)
      ∙ ap finish (alloc_entry_found sb (ip.addrs 12) (bn - 12) disk (λ z. there (e ∙ z)))
      ∙ ap (λ a. ok (a, ip, disk)) (sym e)
]
  where
    finish : Result (ℕ × Disk) → Result (ℕ × Inode × Disk)
    finish r = r >>= λ (addr, disk''). ok (addr, ip, disk'')

    through : Result (ℕ × Inode × Disk) → Result (ℕ × Inode × Disk)
    through r = r >>= λ (indirect, ip', disk').
        alloc_entry sb indirect (bn - 12) disk' >>= λ (addr, disk''). ok (addr, ip', disk'')

    high : Result (ℕ × Inode × Disk)
    high = if ltb (bn - 12) 128 then through (alloc_slot sb 12 ip disk) else stop panic

-- The bytes of a file from `off` on.
abbrev pub contents : (ℕ → ℕ) → Disk → ℕ → ℕ → List ℕ
contents addrs disk off zero = []
contents addrs disk off (suc n) = content addrs disk off ∷ contents addrs disk (off + 1) n

suc_total : (m n total : ℕ) → suc m + n ≡ total → suc (m + n) ≡ total
suc_total m n total t = omega (arith, t)

contents-append :
    (addrs : ℕ → ℕ) (disk : Disk) (m n off end total : ℕ)
    → end ≡ off + m
    → m + n ≡ total
    → contents addrs disk off m ++ contents addrs disk end n ≡ contents addrs disk off total
contents-append addrs disk zero n off end total e t =
    ap₂ (contents addrs disk) (omega arith) (omega arith)
contents-append addrs disk (suc m) n off end total e t =
    ap (λ xs. content addrs disk off ∷ xs)
      (contents-append addrs disk m n (off + 1) end (m + n) (omega arith) refl)
    ∙ ap (contents addrs disk off) (suc_total m n total t)

next_block : (off m : ℕ) → off % 512 + suc (suc m) ≤ 512 → off / 512 ≡ (off + 1) / 512
next_block off m fits = omega arith

next_byte : (off m : ℕ) → off % 512 + suc (suc m) ≤ 512 → off % 512 + 1 ≡ (off + 1) % 512
next_byte off m fits = omega arith

slice-contents :
    (addrs : ℕ → ℕ) (disk : Disk) (m off : ℕ)
    → off % 512 + m ≤ 512
    → slice (disk (slot addrs disk (index (off / 512)))) (off % 512) m ≡ contents addrs disk off m
slice-contents addrs disk zero off fits = refl
slice-contents addrs disk (suc zero) off fits = refl
slice-contents addrs disk (suc (suc m)) off fits =
    ap (λ xs. content addrs disk off ∷ xs)
      (ap₂ (λ b q. slice (disk (slot addrs disk (index b))) q (suc m)) (next_block off m fits)
          (next_byte off m fits)
        ∙ slice-contents addrs disk (suc m) (off + 1) (omega arith))

-- One round of the loop, on a block that is there.
read_from_more :
    (fuel : ℕ) (sb : Superblock) (off left : ℕ) (ip : Inode) (disk : Disk) (bytes : List ℕ)
    → left ≢ 0
    → off / 512 < 140
    → Filled ip.addrs disk off
    → read_from fuel sb
        (off + min left (512 - off % 512))
        (left - min left (512 - off % 512))
        ip
        disk
      ≡ ok (bytes, ip, disk)
    → read_from (suc fuel) sb off left ip disk
      ≡ ok (
        slice
              (disk (slot ip.addrs disk (index (off / 512))))
              (off % 512)
              (min left (512 - off % 512))
            ++ bytes,
        ip,
        disk,
      )
unfolding read_from
read_from_more fuel sb off left ip disk bytes ne lt there rest =
    rw (ne→== left 0 ne) (rw (bmap_found sb (off / 512) ip disk lt there) (rw rest refl))

read_from_none :
    (fuel : ℕ) (sb : Superblock) (off : ℕ) (ip : Inode) (disk : Disk)
    → read_from fuel sb off 0 ip disk ≡ ok ([], ip, disk)
unfolding read_from
read_from_none zero sb off ip disk = refl
read_from_none (suc fuel) sb off ip disk = refl

read_from_lem :
    (fuel : ℕ) (sb : Superblock) (off left : ℕ) (ip : Inode) (disk : Disk)
    → left ≤ fuel
    → off + left ≤ 71680
    → ((p : ℕ) → off ≤ p → p < off + left → Filled ip.addrs disk p)
    → read_from fuel sb off left ip disk ≡ ok (contents ip.addrs disk off left, ip, disk)
read_from_lem zero sb off left ip disk enough max there =
    let e : left ≡ 0 = omega (arith, enough) in
    subst (λ n. read_from zero sb off n ip disk ≡ ok (contents ip.addrs disk off n, ip, disk))
      (sym e) (read_from_none zero sb off ip disk)
read_from_lem (suc fuel) sb off left ip disk enough max there = elim (ℕ_discrete left 0) [
  | yes e ↦
      subst
        (λ n. read_from (suc fuel) sb off n ip disk ≡ ok (contents ip.addrs disk off n, ip, disk))
        (sym e) (read_from_none (suc fuel) sb off ip disk)
  | no ne ↦
      let m = min left (512 - off % 512) in
      read_from_more fuel sb off left ip disk (contents ip.addrs disk (off + m) (left - m)) ne
        (omega (arith, max, ne)) (there off (omega arith) (omega (arith, ne)))
        (read_from_lem fuel sb (off + m) (left - m) ip disk (omega (arith, enough, ne))
          (omega (arith, max)) (λ p low high. there p (omega (arith, low)) (omega (arith, high))))
      ∙ ap (λ bytes. ok (bytes, ip, disk))
          (ap (λ xs. xs ++ contents ip.addrs disk (off + m) (left - m))
              (slice-contents ip.addrs disk m off (omega arith))
            ∙ contents-append ip.addrs disk m (left - m) off (off + m) left refl (omega arith))
]

-- How many bytes `readi` returns.
abbrev pub available : ℕ → ℕ → ℕ → ℕ
available size off n = if ltb size (off + n) then size - off else n

-- `readi` of an inode that is no device, at an offset within the file, where the blocks of the bytes
-- are there: it returns the bytes of the file from the offset on, as many as are asked for and left,
-- and changes neither the inode nor the disk.
pub readi_lem :
    (devsw : ℕ → Option DevRead) (sb : Superblock) (off n : ℕ) (ip : Inode) (disk : Disk)
    → ip.type ≢ t_dev
    → off ≤ ip.size
    → off + n < 2 ^ 32
    → off + available ip.size off n ≤ 71680
    → ((p : ℕ) → off ≤ p → p < off + available ip.size off n → Filled ip.addrs disk p)
    → readi devsw sb off n ip disk
      ≡ ok (some (contents ip.addrs disk off (available ip.size off n)), ip, disk)
unfolding readi
readi_lem devsw sb off n ip disk file le word max there =
    let sum : (off + n) % 2 ^ 32 ≡ off + n = omega arith in
    rw (ne→== ip.type t_dev file) (
      rw sum (
        rw (le→ltb ip.size off le) (
          rw (le→ltb (off + n) off (omega arith)) (
            rw
              (read_from_lem (available ip.size off n) sb off (available ip.size off n) ip disk
                (omega arith) max there)
              refl))))
