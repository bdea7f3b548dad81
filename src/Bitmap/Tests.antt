-- ===== src/Bitmap/Tests.antt =====
-- A disk of a hundred blocks with one block of bitmap: witnesses of the theorems and runs of the code.
use graduation_prj.Base.{◌≡◌, ap, update, arith, ℕ_discrete}
use graduation_prj.Bitmap.Defs.{Disk, Superblock, bit, bblock, balloc, bfree}
use graduation_prj.Bitmap.Bits.{mark}
use graduation_prj.Bitmap.Blocks.{
  Reserved, BallocOutcome, balloc-BallocOutcome, BfreeOutcome, bfree-BfreeOutcome,
}

abbrev sb : Superblock
sb = record { size = 100; ninodes = 200; inodestart = 32; bmapstart = 58 }

-- The first three blocks and those from 56 to 63 are in use.
abbrev disk : Disk
disk block = update (update (λ _. 0) 0 7) 7 255

disk-Reserved : Reserved sb disk
unfolding bit ℕ_discrete
disk-Reserved c lt = let e : bblock c sb ≡ 58 = omega arith in ap (mark sb disk) e

balloc-BallocOutcome_example : BallocOutcome sb disk (balloc sb disk)
balloc-BallocOutcome_example = balloc-BallocOutcome sb disk disk-Reserved

bfree-BfreeOutcome_example : BfreeOutcome sb disk 58 (bfree 58 sb disk)
bfree-BfreeOutcome_example = bfree-BfreeOutcome sb disk 58
