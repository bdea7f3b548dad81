-- ===== src/File/Tests.antt =====
-- A file on a disk of a hundred blocks: witnesses of the theorems and runs of the code.
use graduation_prj.File.Truncate.{Truncated, itrunc-Truncated}
use graduation_prj.File.Defs.{itrunc}
use graduation_prj.Base.{
  Succeeds, ◌⊎◌, inl, inr, ℕ, ◌+◌, ◌*◌, ◌≡◌, inl, inr, refl, ap, none, some, [], update, arith,
  ℕ_discrete, ok,
}
use graduation_prj.Bitmap.Defs.{
  Disk, Superblock, bit, bblock, balloc, balloc_from, find_bit, take_block,
}
use graduation_prj.Bitmap.Bits.{mark}
use graduation_prj.File.Defs.{
  Inode, bmap, alloc_slot, writei, write_from, copy_in, iupdate, readi, slice,
}
use graduation_prj.File.Room.{Sound, Returns, room}
use graduation_prj.File.Slots.{slot, IsMapped}
use graduation_prj.File.Bmap.{Mapped, index, bmap-Mapped}
use graduation_prj.File.Logged.{IfOk}
use graduation_prj.File.Changes.{Changes}
use graduation_prj.File.Writei.{Placed, Written, writei-Written, writei-refused}
use graduation_prj.File.Read.{readi_lem}
use graduation_prj.File.Trip.{readi-writei}

abbrev sb : Superblock
sb = record { size = 100; ninodes = 200; inodestart = 32; bmapstart = 58 }

-- The blocks 0 to 2, 33 and 56 to 63 are in use.
abbrev disk : Disk
disk block = update (update (update (λ _. 0) 0 7) 4 2) 7 255

-- An empty file, whose inode is in block 33.
abbrev empty_file : Inode
empty_file = record {
  inum = 8;
  type = 2;
  major = 0;
  minor = 0;
  nlink = 1;
  size = 0;
  addrs = λ _. 0;
}

disk-Sound : Sound sb disk
unfolding bit ℕ_discrete
disk-Sound = record {
  reserved = λ c lt. let e : bblock c sb ≡ 58 = omega arith in ap (mark sb disk) e;
  bitmap_inside = λ c lt. omega arith;
  boot = refl;
  boot_inside = omega arith;
  words = omega arith;
}

no_slots : (j : ℕ) → slot empty_file.addrs disk j ≡ 0
no_slots j = ground arith

empty-IsMapped : IsMapped sb disk (slot empty_file.addrs disk)
empty-IsMapped = record {
  sound = disk-Sound;
  inside = λ i ne. absurd (ne (no_slots i));
  used = λ i ne. absurd (ne (no_slots i));
  apart = λ i ne. absurd (ne (no_slots i));
  distinct = λ i j ne e. absurd (ne (no_slots i));
}

empty-Placed : Placed sb empty_file disk
unfolding bit ℕ_discrete
empty-Placed = record {
  inside = omega arith;
  used = refl;
  apart = λ c lt e. omega (arith, e, lt);
  in_no_slot = λ j e. omega (arith, e, no_slots j);
}

abbrev letters : ℕ → ℕ
letters i = 65 + i

bmap-Mapped_example :
    Returns (room sb disk) 2 (Mapped 2 sb (index 20) empty_file disk) (bmap sb 20 empty_file disk)
bmap-Mapped_example = bmap-Mapped sb 20 empty_file disk (omega arith) empty-IsMapped

writei-Written_example :
    Returns
      (room sb disk)
      (2 * 2)
      (Written sb letters 0 700 empty_file disk)
      (writei (λ _. none) sb letters 0 700 empty_file disk)
    × IfOk (Changes 8 disk) (writei (λ _. none) sb letters 0 700 empty_file disk)
writei-Written_example =
    writei-Written (λ _. none) sb letters 0 700 2 empty_file disk (omega arith) (omega arith)
      (λ e. omega (arith, e)) (omega arith) (omega arith) (inr (omega arith)) empty-IsMapped
      empty-Placed

writei-refused_example :
    writei (λ _. none) sb letters 1 5 empty_file disk ≡ ok (none, empty_file, disk)
writei-refused_example =
    writei-refused (λ _. none) sb letters 1 5 empty_file disk (λ e. omega (arith, e)) (omega arith)
      (omega arith) (inl (omega arith))

-- The file and the disk after three bytes.
abbrev longer_file : Inode
longer_file = record empty_file { size = 3; addrs = update (λ _. 0) 0 3 }

abbrev allocated : Disk
allocated = (take_block 0 3 sb disk).1

abbrev disk_after : Disk
disk_after = iupdate sb longer_file (update allocated 3 (copy_in 3 0 letters 0 (allocated 3)))

wrote_three :
    writei (λ _. none) sb letters 0 3 empty_file disk ≡ ok (some 3, longer_file, disk_after)
unfolding writei write_from bmap alloc_slot balloc balloc_from find_bit bit ℕ_discrete take_block
wrote_three = refl

readi-writei_example :
    readi (λ _. none) sb 0 3 longer_file disk_after
    ≡ ok (some (slice letters 0 3), longer_file, disk_after)
readi-writei_example =
    readi-writei (λ _. none) (λ _. none) sb letters 0 3 empty_file disk (λ e. omega (arith, e))
      (omega arith) (omega arith) empty-IsMapped empty-Placed wrote_three

-- An empty file has no bytes.
readi_lem_example : readi (λ _. none) sb 0 10 empty_file disk ≡ ok (some [], empty_file, disk)
readi_lem_example =
    readi_lem (λ _. none) sb 0 10 empty_file disk (λ e. omega (arith, e)) (omega arith)
      (omega arith) (omega arith) (λ p low high. absurd (omega (arith, low, high)))

-- A file with the blocks 60 and 61.
abbrev two_blocks : Inode
two_blocks = record empty_file { size = 700; addrs = update (update (λ _. 0) 0 60) 1 61 }

two_slots :
    (i : ℕ)
    → (slot two_blocks.addrs disk i ≡ 0)
      ⊎ (((i ≡ 0) × (slot two_blocks.addrs disk i ≡ 60))
          ⊎ ((i ≡ 1) × (slot two_blocks.addrs disk i ≡ 61)))
two_slots i = ground arith

two-IsMapped : IsMapped sb disk (slot two_blocks.addrs disk)
unfolding bit ℕ_discrete
two-IsMapped = record {
  sound = disk-Sound;
  inside = λ i ne. ground (arith, two_slots i, ne);
  used = λ i ne. elim (two_slots i) [
    | inl e ↦ absurd (ne e)
    | inr (inl e) ↦ ap (mark sb disk) e.1
    | inr (inr e) ↦ ap (mark sb disk) e.1
  ];
  apart = λ i ne c lt. ground (arith, two_slots i, ne, lt);
  distinct = λ i j ne e. ground (arith, two_slots i, two_slots j, ne, e);
}

itrunc-Truncated_example :
    Succeeds (λ (ip, after). Truncated sb disk two_blocks ip after) (itrunc sb two_blocks disk)
itrunc-Truncated_example =
    itrunc-Truncated sb disk two_blocks two-IsMapped (λ c lt. omega (arith, lt))
