-- ===== src/Inodes/Tests.antt =====
-- fs.c: a cache with one inode in use, and a disk of empty blocks.
use graduation_prj.Base.{
  ◌≡◌, ◌≢◌, refl, true, some, update, ◌==◌, if◌then◌else◌, ok, ℕ_discrete, arith,
}
use graduation_prj.Bitmap.Defs.{Disk, Superblock}
use graduation_prj.File.Defs.{Inode, iupdate}
use graduation_prj.Inodes.Defs.{Icache, iget, find_inode, find_free_inode, read_inode}
use graduation_prj.Inodes.Stored.{IsSized, Agrees, read_inode-iupdate}

abbrev root : Inode
root = record { inum = 1; type = 1; major = 0; minor = 0; nlink = 1; size = 512; addrs = λ _. 60 }

-- Entry 3 is the root directory; the others are not in use.
abbrev cache : Icache
cache i = record { dev = 1; ref = if i == 3 then 2 else 0; valid = true; node = root }

iget_again : iget 1 1 cache ≡ ok (3, update cache 3 (record (cache 3) { ref = 3 }))
unfolding iget find_inode
iget_again = refl

abbrev sb : Superblock
sb = record { size = 100; ninodes = 200; inodestart = 32; bmapstart = 58 }

root-IsSized : IsSized root
root-IsSized = record {
  type = omega arith;
  major = omega arith;
  minor = omega arith;
  nlink = omega arith;
  size = omega arith;
  addrs = λ k lt. omega arith;
}

-- The root and another inode of the same block.
abbrev other : Inode
other = record root { inum = 2; nlink = 7 }

read_inode-iupdate_example :
    ((other.inum ≡ root.inum) → Agrees (read_inode sb (iupdate sb root (λ _ _. 0)) other) root)
    × ((other.inum ≢ root.inum)
        → Agrees
            (read_inode sb (iupdate sb root (λ _ _. 0)) other)
            (read_inode sb (λ _ _. 0) other))
read_inode-iupdate_example = read_inode-iupdate sb (λ _ _. 0) root other root-IsSized

-- Inode 1 has a type.
abbrev one_used : Disk
one_used = update (λ _ _. 0) 32 (update (λ _. 0) 64 1)

find_free_inode_skips : find_free_inode 3 1 sb one_used ≡ some 2
unfolding find_free_inode ℕ_discrete
find_free_inode_skips = refl
