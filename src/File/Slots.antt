-- ===== src/File/Slots.antt =====
-- The block numbers of an inode: 12 direct, then the indirect block, then the 128 in the indirect
-- block; and what each change of the disk or the inode does to them.
use graduation_prj.Base.{
  total-same, ℕ, ◌-◌, ◌*◌, ◌/◌, ◌%◌, ◌≤◌, ◌<◌, ◌≡◌, ◌≢◌, sym, ap, ◌∙◌, update, update_same,
  update_other, arith, ℕ_discrete, ltb, ◌==◌, if◌then◌else◌,
}
use mathlib.Core.Path.{subst, fun_ext}
use graduation_prj.Bitmap.Defs.{Disk, Superblock, bit, bblock, bpb}
use graduation_prj.Bitmap.Bits.{mark}
use graduation_prj.File.Words.{get_word}
use graduation_prj.File.Room.{Sound, Apart, Fresh, room}

-- The number in each slot; 0 is none.
abbrev pub slot : (ℕ → ℕ) → Disk → ℕ → ℕ
slot addrs disk i =
    if ltb i 13
    then addrs i
    else if ltb i 141
    then (if addrs 12 == 0 then 0 else get_word (disk (addrs 12)) (4 * (i - 13)))
    else 0

-- The blocks of the slots are in use, not of the bitmap, and all different.
pub record IsMapped (sb : Superblock) (disk : Disk) (s : ℕ → ℕ) : Type 0 where
  pub sound : Sound sb disk
  pub inside : (i : ℕ) → s i ≢ 0 → s i < sb.size
  pub used : (i : ℕ) → s i ≢ 0 → mark sb disk (s i) ≡ 1
  pub apart : (i : ℕ) → s i ≢ 0 → Apart sb (s i)
  pub distinct : (i j : ℕ) → s i ≢ 0 → s i ≡ s j → i ≡ j

-- The marks are in the blocks of the bitmap.
pub marks_same :
    (sb : Superblock) (disk after : Disk)
    → ((c : ℕ) → c < sb.size → after (bblock c sb) ≡ disk (bblock c sb))
    → (c : ℕ) → c < sb.size
    → mark sb after c ≡ mark sb disk c
marks_same sb disk after h c lt = ap (λ bytes. bit (bytes (c % bpb / 8)) (c % bpb % 8)) (h c lt)

-- A change of one block outside the bitmap.
module _ (sb : Superblock) (disk : Disk) (b : ℕ) (bytes : ℕ → ℕ) (away : Apart sb b) where
  pub write-marks : (c : ℕ) → c < sb.size → mark sb (update disk b bytes) c ≡ mark sb disk c
  write-marks c lt =
      marks_same sb disk (update disk b bytes)
        (λ k k_lt. update_other disk b (bblock k sb) bytes (away k k_lt)) c lt

  pub write-room : room sb (update disk b bytes) ≡ room sb disk
  write-room =
      total-same sb.size (λ c. 1 - mark sb (update disk b bytes) c) (λ c. 1 - mark sb disk c)
        (λ c lt. ap (λ m. 1 - m) (write-marks c lt))

  pub write-Sound : Sound sb disk → Sound sb (update disk b bytes)
  write-Sound s = record {
    reserved = λ c lt. write-marks (bblock c sb) (s.bitmap_inside c lt) ∙ s.reserved c lt;
    bitmap_inside = s.bitmap_inside;
    boot = write-marks 0 s.boot_inside ∙ s.boot;
    boot_inside = s.boot_inside;
    words = s.words;
  }

  pub write-IsMapped : (s : ℕ → ℕ) → IsMapped sb disk s → IsMapped sb (update disk b bytes) s
  write-IsMapped s m = record {
    sound = write-Sound m.sound;
    inside = m.inside;
    used = λ i ne. write-marks (s i) (m.inside i ne) ∙ m.used i ne;
    apart = m.apart;
    distinct = m.distinct;
  }

-- A block that was free is in no slot.
pub Fresh-slot :
    (sb : Superblock) (disk : Disk) (n : ℕ) (after : Disk) (s : ℕ → ℕ)
    → IsMapped sb disk s
    → Fresh sb disk n after
    → (i : ℕ) → s i ≢ n
Fresh-slot sb disk n after s m f i e = elim (ℕ_discrete (s i) 0) [
  | yes none_there ↦ f.nonzero (sym e ∙ none_there)
  | no there ↦ omega (arith, m.used i there, f.taken.free, ap (mark sb disk) e)
]

pub Fresh-IsMapped :
    (sb : Superblock) (disk : Disk) (n : ℕ) (after : Disk) (s : ℕ → ℕ)
    → IsMapped sb disk s
    → Fresh sb disk n after
    → IsMapped sb after s
Fresh-IsMapped sb disk n after s m f = record {
  sound = f.sound;
  inside = m.inside;
  used = λ i ne.
      f.taken.others (s i) (m.inside i ne) (Fresh-slot sb disk n after s m f i) ∙ m.used i ne;
  apart = m.apart;
  distinct = m.distinct;
}

-- A fresh block goes to a slot.
pub assign-IsMapped :
    (sb : Superblock) (disk : Disk) (s : ℕ → ℕ) (k n : ℕ)
    → IsMapped sb disk s
    → n < sb.size
    → mark sb disk n ≡ 1
    → Apart sb n
    → ((i : ℕ) → s i ≢ n)
    → IsMapped sb disk (update s k n)
assign-IsMapped sb disk s k n m lt used apart new = record {
  sound = m.sound;
  inside = λ i. at (λ a. a ≢ 0 → a < sb.size) i (λ _. lt) (m.inside i);
  used = λ i. at (λ a. a ≢ 0 → mark sb disk a ≡ 1) i (λ _. used) (m.used i);
  apart = λ i. at (λ a. a ≢ 0 → Apart sb a) i (λ _. apart) (m.apart i);
  distinct = λ i j ne e. elim (ℕ_discrete k i) [
    | yes ki ↦ elim (ℕ_discrete k j) [
      | yes kj ↦ sym ki ∙ kj
      | no nj ↦ absurd (
          new j (
            sym (update_other s k j n nj) ∙ sym e ∙ ap (update s k n) (sym ki) ∙ update_same s k n))
    ]
    | no ni ↦ elim (ℕ_discrete k j) [
      | yes kj ↦ absurd (
          new i
            (sym (update_other s k i n ni) ∙ e ∙ ap (update s k n) (sym kj) ∙ update_same s k n))
      | no nj ↦
          m.distinct i j (λ z. ne (update_other s k i n ni ∙ z))
            (sym (update_other s k i n ni) ∙ e ∙ update_other s k j n nj)
    ]
  ];
}
  where
    at : (P : ℕ → Type 0) (i : ℕ) → P n → P (s i) → P (update s k n i)
    at P i p q = elim (ℕ_discrete k i) [
      | yes same ↦ subst P (sym (ap (update s k n) (sym same) ∙ update_same s k n)) p
      | no other ↦ subst P (sym (update_other s k i n other)) q
    ]

-- The three kinds of index.
pub slot-direct : (addrs : ℕ → ℕ) (disk : Disk) (i : ℕ) → i < 13 → slot addrs disk i ≡ addrs i
slot-direct addrs disk i lt = ground arith

pub slot-entry :
    (addrs : ℕ → ℕ) (disk : Disk) (i : ℕ)
    → 13 ≤ i
    → i < 141
    → addrs 12 ≢ 0
    → slot addrs disk i ≡ get_word (disk (addrs 12)) (4 * (i - 13))
slot-entry addrs disk i le lt ne = ground arith

pub slot-none :
    (addrs : ℕ → ℕ) (disk : Disk) (i : ℕ) → 13 ≤ i → addrs 12 ≡ 0 → slot addrs disk i ≡ 0
slot-none addrs disk i le e = ground arith

pub slot_past : (addrs : ℕ → ℕ) (disk : Disk) (i : ℕ) → 141 ≤ i → slot addrs disk i ≡ 0
slot_past addrs disk i le = ground arith

-- The slots depend on the indirect block only.
pub slot-same :
    (addrs : ℕ → ℕ) (disk after : Disk)
    → (addrs 12 ≢ 0 → after (addrs 12) ≡ disk (addrs 12))
    → slot addrs after ≡ slot addrs disk
slot-same addrs disk after h = fun_ext λ i. elim (ℕ_discrete (addrs 12) 0) [
  | yes none_there ↦ ground arith
  | no there ↦
      ap
        (λ bytes.
          if ltb i 13
          then addrs i
          else if ltb i 141
          then (if addrs 12 == 0 then 0 else get_word bytes (4 * (i - 13)))
          else 0)
        (h there)
]
