-- ===== src/File/Writei.antt =====
-- writei as a whole: the loop, the new size and the inode on disk; and when it refuses.
use graduation_prj.Base.{
  ℕ, ◌+◌, ◌-◌, ◌*◌, ◌/◌, ◌%◌, ◌^◌, ◌≤◌, ◌<◌, ◌≡◌, ◌≢◌, ◌⊎◌, inl, inr, refl, sym, ap, ◌∙◌, true,
  false, Option, none, some, update, update_other, arith, Bool-cases, ltb, ltb→lt, ltb→le, lt→ltb,
  le→ltb, ne→==, if◌then◌else◌, ok,
}
use mathlib.Core.Path.{subst}
use graduation_prj.Bitmap.Defs.{Disk, Superblock}
use graduation_prj.Bitmap.Bits.{mark}
use graduation_prj.File.Defs.{
  Inode, write_from, writei, wrote, iupdate, iblock, ipb, put_dinode, t_dev, DevWrite,
}
use graduation_prj.File.Room.{Apart, room, Returns, bind-Returns}
use graduation_prj.File.Slots.{slot, IsMapped, slot-same, write-IsMapped}
use graduation_prj.File.Contents.{content, Filled, Wrote}
use graduation_prj.File.Bmap.{index}
use graduation_prj.Inodes.Defs.{read_inode}
use graduation_prj.Inodes.Stored.{IsSized, Agrees, read_inode-iupdate}
use graduation_prj.File.Write.{write_from-Wrote}
use graduation_prj.File.Logged.{IfOk}
use graduation_prj.File.Changes.{Changes, refuses, writei-Changes}

-- The inode's own block on disk is in use, not of the bitmap, and in none of its slots.
pub record Placed (sb : Superblock) (ip : Inode) (disk : Disk) : Type 0 where
  pub inside : iblock ip.inum sb < sb.size
  pub used : mark sb disk (iblock ip.inum sb) ≡ 1
  pub apart : Apart sb (iblock ip.inum sb)
  pub in_no_slot : (j : ℕ) → iblock ip.inum sb ≢ slot ip.addrs disk j

abbrev pub larger : ℕ → ℕ → ℕ
larger a b = if ltb a b then b else a

-- What `writei` does when it returns `n`.
pub record Written (sb : Superblock) (src : ℕ → ℕ) (off n : ℕ) (ip : Inode) (disk : Disk)
    (r : Option ℕ × Inode × Disk) : Type 0 where
  pub counted : r.0 ≡ some n
  pub mapped : IsMapped sb r.2 (slot r.1.addrs r.2)
  pub size : r.1.size ≡ larger ip.size (off + n)
  pub type : r.1.type ≡ ip.type
  pub written : (p : ℕ) → off ≤ p → p < off + n → content r.1.addrs r.2 p ≡ src (p - off)
  pub filled : (p : ℕ) → off ≤ p → p < off + n → Filled r.1.addrs r.2 p
  pub others :
      (p : ℕ)
      → (p < off) ⊎ (off + n ≤ p)
      → Filled ip.addrs disk p
      → content r.1.addrs r.2 p ≡ content ip.addrs disk p
  pub stored : ip.size < off + n → IsSized r.1 → Agrees (read_inode sb r.2 r.1) r.1
  pub grows : (j : ℕ) → slot ip.addrs disk j ≢ 0 → slot r.1.addrs r.2 j ≡ slot ip.addrs disk j
  pub kept :
      (b : ℕ)
      → b < sb.size
      → mark sb disk b ≡ 1
      → Apart sb b
      → ((j : ℕ) → b ≢ slot ip.addrs disk j)
      → b ≢ iblock ip.inum sb
      → r.2 b ≡ disk b

-- The inode goes to its block: the file's bytes are not touched.
module _ (sb : Superblock) (addrs : ℕ → ℕ) (disk : Disk) (block : ℕ) (bytes : ℕ → ℕ)
    (away : (j : ℕ) → block ≢ slot addrs disk j) where
  iupdate-slot : slot addrs (update disk block bytes) ≡ slot addrs disk
  iupdate-slot =
      slot-same addrs disk (update disk block bytes)
        (λ _. update_other disk block (addrs 12) bytes (away 12))

  iupdate-content : (p : ℕ) → content addrs (update disk block bytes) p ≡ content addrs disk p
  iupdate-content p =
      ap (λ s. update disk block bytes (s (index (p / 512))) (p % 512)) iupdate-slot
      ∙ ap (λ row. row (p % 512))
          (update_other disk block (slot addrs disk (index (p / 512))) bytes
            (away (index (p / 512))))

  iupdate-IsMapped :
      Apart sb block
      → IsMapped sb disk (slot addrs disk)
      → IsMapped sb (update disk block bytes) (slot addrs (update disk block bytes))
  iupdate-IsMapped apart m =
      subst (IsMapped sb (update disk block bytes)) (sym iupdate-slot)
        (write-IsMapped sb disk block bytes apart (slot addrs disk) m)

module _ (sb : Superblock) (src : ℕ → ℕ) (off n : ℕ) (ip : Inode) (disk : Disk)
    (home : Placed sb ip disk) where
  -- The size does not change.
  Written-inside :
      (ip' : Inode) (disk' : Disk)
      → off + n ≤ ip.size
      → Wrote sb src 0 off n ip disk (ip', disk')
      → Written sb src off n ip disk (some n, ip', disk')
  Written-inside ip' disk' le w = record {
    counted = refl;
    mapped = w.mapped;
    size = ap (λ i. i.size) w.same ∙ sym (rw (le→ltb ip.size (off + n) le) refl);
    type = ap (λ i. i.type) w.same;
    written = λ p low high. w.written p low high ∙ ap src (omega arith);
    filled = w.filled;
    others = w.others;
    stored = λ longer sized. absurd (omega (arith, le, longer));
    grows = w.grows;
    kept = λ b lt used apart other _. (w.kept b lt used apart other).0;
  }

  -- The size grows, and the inode is written back.
  Written-longer :
      (ip' : Inode) (disk' : Disk)
      → ip.size < off + n
      → Wrote sb src 0 off n ip disk (ip', disk')
      → Written sb src off n ip disk
          (some n, record ip' { size = off + n }, iupdate sb (record ip' { size = off + n }) disk')
  unfolding iupdate
  Written-longer ip' disk' lt w =
      let inum : ip'.inum ≡ ip.inum = ap (λ i. i.inum) w.same in
      let block = iblock ip'.inum sb in
      let same : block ≡ iblock ip.inum sb = ap (λ i. iblock i sb) inum in
      let away : (j : ℕ) → block ≢ slot ip'.addrs disk' j =
        subst (λ k. (j : ℕ) → k ≢ slot ip'.addrs disk' j) (sym same)
          (w.kept (iblock ip.inum sb) home.inside home.used home.apart home.in_no_slot).1 in
      let bytes =
        put_dinode (64 * (ip'.inum % ipb)) (record ip' { size = off + n }) (disk' block) in
      let slots = iupdate-slot sb ip'.addrs disk' block bytes away in
      record {
        counted = refl;
        mapped =
            iupdate-IsMapped sb ip'.addrs disk' block bytes away
              (subst (Apart sb) (sym same) home.apart) w.mapped;
        size = sym (rw (lt→ltb ip.size (off + n) lt) refl);
        type = ap (λ i. i.type) w.same;
        written = λ p low high.
            iupdate-content sb ip'.addrs disk' block bytes away p
            ∙ w.written p low high
            ∙ ap src (omega arith);
        filled =
            λ p low high z. w.filled p low high (sym (ap (λ s. s (index (p / 512))) slots) ∙ z);
        others = λ p h f. iupdate-content sb ip'.addrs disk' block bytes away p ∙ w.others p h f;
        stored = λ longer sized.
            (read_inode-iupdate sb disk' (record ip' { size = off + n })
                (record ip' { size = off + n }) sized).0
              refl;
        grows = λ j h. ap (λ s. s j) slots ∙ w.grows j h;
        kept = λ b b_lt used apart other ne.
            update_other disk' block b bytes (λ e. ne (sym e ∙ same))
            ∙ (w.kept b b_lt used apart other).0;
      }

  wrote-Written :
      (r : Inode × Disk)
      → off ≤ ip.size
      → Wrote sb src 0 off n ip disk r
      → Written sb src off n ip disk (wrote sb off n r)
  wrote-Written (ip', disk') start w =
      let size : ip'.size ≡ ip.size = ap (λ i. i.size) w.same in
      elim (Bool-cases (ltb ip'.size (off + n))) [
        | inl h ↦
            let lt = ltb→lt ip'.size (off + n) h in
            rw (lt→ltb 0 n (omega (arith, lt, size, start)))
              (rw h (Written-longer ip' disk' (omega (arith, lt, size)) w))
        | inr h ↦
            let le = ltb→le ip'.size (off + n) h in
            subst (Written sb src off n ip disk) (sym (unchanged ip' disk' h))
              (Written-inside ip' disk' (omega (arith, le, size)) w)
      ]
    where
      unchanged :
          (ip' : Inode) (disk' : Disk)
          → ltb ip'.size (off + n) ≡ false
          → wrote sb off n (ip', disk') ≡ (some n, ip', disk')
      unchanged ip' disk' h = elim (Bool-cases (ltb 0 n)) [
        | inl e ↦ rw e (rw h refl)
        | inr e ↦ rw e refl
      ]

accepts : (size off n : ℕ) → off ≤ size → off + n ≤ 71680 → refuses size off n ≡ false
accepts size off n le max = ground arith

-- The log has room for every block that is changed.
pub writei-Returns :
    (devsw : ℕ → Option DevWrite) (sb : Superblock) (src : ℕ → ℕ) (off n k : ℕ) (ip : Inode)
    (disk : Disk)
    → ip.type ≢ t_dev
    → off ≤ ip.size
    → off + n ≤ 71680
    → (n ≡ 0) ⊎ (off + n ≤ 512 * (off / 512 + k))
    → IsMapped sb disk (slot ip.addrs disk)
    → Placed sb ip disk
    → Returns
        (room sb disk)
        (2 * k)
        (Written sb src off n ip disk)
        (writei devsw sb src off n ip disk)
unfolding writei
writei-Returns devsw sb src off n k ip disk file le max blocks m home =
    rw (ne→== ip.type t_dev file) (
      rw (accepts ip.size off n le max) (
        bind-Returns (room sb disk) (2 * k) (Wrote sb src 0 off n ip disk)
          (Written sb src off n ip disk) (write_from n sb src 0 off n ip disk)
          (λ r. ok (wrote sb off n r))
          (write_from-Wrote n k sb src 0 off n ip disk (omega arith) max blocks m)
          (λ r w. wrote-Written sb src off n ip disk home r le w)))

-- On an inode that is no device, whose blocks are all in use and different and whose own block is
-- apart from them, `writei` of `n` bytes at an offset within the file, that end within the largest
-- file: it returns `n`, the bytes are in the file, its other bytes are as they were, its size is the
-- larger of the old one and the end of the bytes, and no block in use elsewhere has changed, but for
-- the bitmap and the inode's own. If the file has become longer, ilock reads the inode from the disk
-- with its new size and blocks, where its numbers fit their fields. It panics only if fewer blocks are
-- free than two for each of the `k` blocks that the bytes touch. The bytes are no more than the 1536
-- that filewrite writes in one transaction, and the file system no larger than one bitmap block tells
-- of: then at most 8 blocks of the disk are different after, of the 10 that begin_op reserves in the
-- log, and the log is taken to have room for them.
pub writei-Written :
    (devsw : ℕ → Option DevWrite) (sb : Superblock) (src : ℕ → ℕ) (off n k : ℕ) (ip : Inode)
    (disk : Disk)
    → sb.size ≤ 4096
    → n ≤ 1536
    → ip.type ≢ t_dev
    → off ≤ ip.size
    → off + n ≤ 71680
    → (n ≡ 0) ⊎ (off + n ≤ 512 * (off / 512 + k))
    → IsMapped sb disk (slot ip.addrs disk)
    → Placed sb ip disk
    → Returns
        (room sb disk)
        (2 * k)
        (Written sb src off n ip disk)
        (writei devsw sb src off n ip disk)
      × IfOk (Changes 8 disk) (writei devsw sb src off n ip disk)
writei-Written devsw sb src off n k ip disk one small file start max blocks mapped home = (
  writei-Returns devsw sb src off n k ip disk file start max blocks mapped home,
  writei-Changes sb one devsw src off n ip disk small file,
)

refused :
    (size off n : ℕ)
    → off < 2 ^ 32
    → n < 2 ^ 32
    → (size < off) ⊎ (71680 < off + n)
    → refuses size off n ≡ true
refused size off n off_word n_word h = ground arith

-- `writei` returns -1 for an inode that is no device if the offset is past the end of the file, or if
-- the bytes end past the largest file, also where the sum of offset and length is too large for a
-- `uint`; then neither the inode nor the disk changes.
pub writei-refused :
    (devsw : ℕ → Option DevWrite) (sb : Superblock) (src : ℕ → ℕ) (off n : ℕ) (ip : Inode)
    (disk : Disk)
    → ip.type ≢ t_dev
    → off < 2 ^ 32
    → n < 2 ^ 32
    → (ip.size < off) ⊎ (71680 < off + n)
    → writei devsw sb src off n ip disk ≡ ok (none, ip, disk)
unfolding writei
writei-refused devsw sb src off n ip disk file off_word n_word h =
    rw (ne→== ip.type t_dev file) (rw (refused ip.size off n off_word n_word h) refl)
