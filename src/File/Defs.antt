-- ===== src/File/Defs.antt =====
-- fs.c: bmap, readi, writei, itrunc and iupdate. The disk is its blocks as the buffers show them.
use graduation_prj.Base.{
  ℕ, zero, suc, ◌+◌, ◌-◌, ◌*◌, ◌/◌, ◌%◌, ◌^◌, min, Bool, ◌&&◌, ◌||◌, List, [], ◌∷◌, ◌++◌, Option,
  none, some, update, ltb, leb, ◌==◌, if◌then◌else◌, Result, ok, stop, panic, spin, ◌>>=◌,
}
use graduation_prj.Bitmap.Defs.{Disk, Superblock, balloc, bfree}
use graduation_prj.File.Words.{get_word, put_word, put_half}

abbrev pub bsize : ℕ
bsize = 512

abbrev pub ndirect : ℕ
ndirect = 12

abbrev pub nindirect : ℕ
nindirect = 128

abbrev pub maxfile : ℕ
maxfile = ndirect + nindirect

abbrev pub ndev : ℕ
ndev = 10

abbrev pub t_dev : ℕ
t_dev = 3

-- `struct inode`, without its lock and what the cache keeps of it. A `short` is its bit pattern.
pub record Inode : Type 0 where
  pub inum : ℕ
  pub type : ℕ
  pub major : ℕ
  pub minor : ℕ
  pub nlink : ℕ
  pub size : ℕ
  pub addrs : ℕ → ℕ

-- `if((addr = ip->addrs[k]) == 0) ip->addrs[k] = addr = balloc(ip->dev)`
unfoldable pub alloc_slot : Superblock → ℕ → Inode → Disk → Result (ℕ × Inode × Disk)
alloc_slot sb k ip disk =
    if ip.addrs k == 0
    then (balloc sb disk >>= λ (addr, disk').
        ok (addr, record ip { addrs = update ip.addrs k addr }, disk'))
    else ok (ip.addrs k, ip, disk)

-- The same for the entry `bn` of the indirect block.
unfoldable pub alloc_entry : Superblock → ℕ → ℕ → Disk → Result (ℕ × Disk)
alloc_entry sb indirect bn disk =
    if get_word (disk indirect) (4 * bn) == 0
    then (balloc sb disk >>= λ (addr, disk').
        ok (addr, update disk' indirect (put_word (4 * bn) addr (disk' indirect))))
    else ok (get_word (disk indirect) (4 * bn), disk)

unfoldable pub bmap : Superblock → ℕ → Inode → Disk → Result (ℕ × Inode × Disk)
bmap sb bn ip disk =
    if ltb bn ndirect
    then alloc_slot sb bn ip disk
    else if ltb (bn - ndirect) nindirect
    then (alloc_slot sb ndirect ip disk >>= λ (indirect, ip', disk').
        alloc_entry sb indirect (bn - ndirect) disk' >>= λ (addr, disk''). ok (addr, ip', disk''))
    else stop panic

-- `memmove(dst, bp->data + o, m)` and `memmove(bp->data + o, src, m)`, on the bytes of one block.
abbrev pub slice : (ℕ → ℕ) → ℕ → ℕ → List ℕ
slice bytes o zero = []
slice bytes o (suc m) = bytes o ∷ slice bytes (o + 1) m

unfoldable pub copy_in : ℕ → ℕ → (ℕ → ℕ) → ℕ → (ℕ → ℕ) → ℕ → ℕ
copy_in zero o src i bytes = bytes
copy_in (suc m) o src i bytes = copy_in m (o + 1) src (i + 1) (update bytes o (src i))

-- The loop of `readi`, for the `left` bytes from `off` on.
unfoldable pub read_from : ℕ → Superblock → ℕ → ℕ → Inode → Disk → Result (List ℕ × Inode × Disk)
read_from zero sb off left ip disk = if left == 0 then ok ([], ip, disk) else stop spin
read_from (suc fuel) sb off left ip disk =
    if left == 0
    then ok ([], ip, disk)
    else (bmap sb (off / bsize) ip disk >>= λ (addr, ip', disk').
        let m = min left (bsize - off % bsize) in
        read_from fuel sb (off + m) (left - m) ip' disk' >>= λ (rest, ip'', disk'').
        ok (slice (disk' addr) (off % bsize) m ++ rest, ip'', disk''))

-- What a device of `devsw` returns: -1, or bytes.
abbrev pub DevRead : Type 0
DevRead = ℕ → Option (List ℕ)

abbrev pub no_device : ℕ → Bool
no_device major = leb (2 ^ 15) major || leb ndev major

abbrev pub device_read : Option DevRead → ℕ → Option (List ℕ)
device_read none n = none
device_read (some read) n = read n

abbrev pub some_bytes : (List ℕ × Inode × Disk) → Option (List ℕ) × Inode × Disk
some_bytes (bytes, ip, disk) = (some bytes, ip, disk)

-- `readi`: the result -1 is `none`. Each round copies a byte or more, so `n` rounds are enough.
unfoldable pub readi :
    (ℕ → Option DevRead)
    → Superblock
    → ℕ
    → ℕ
    → Inode
    → Disk
    → Result (Option (List ℕ) × Inode × Disk)
readi devsw sb off n ip disk =
    let count = if ltb ip.size ((off + n) % 2 ^ 32) then ip.size - off else n in
    if ip.type == t_dev
    then ok (if no_device ip.major then none else device_read (devsw ip.major) n, ip, disk)
    else if ltb ip.size off || ltb ((off + n) % 2 ^ 32) off
    then ok (none, ip, disk)
    else (read_from count sb off count ip disk >>= λ r. ok (some_bytes r))

-- The loop of `writei`, for the `left` bytes of `src` from its byte `i` on.
unfoldable pub write_from :
    ℕ → Superblock → (ℕ → ℕ) → ℕ → ℕ → ℕ → Inode → Disk → Result (Inode × Disk)
write_from zero sb src i off left ip disk = if left == 0 then ok (ip, disk) else stop spin
write_from (suc fuel) sb src i off left ip disk =
    if left == 0
    then ok (ip, disk)
    else (bmap sb (off / bsize) ip disk >>= λ (addr, ip', disk').
        let m = min left (bsize - off % bsize) in
        write_from fuel sb src (i + m) (off + m) (left - m) ip'
          (update disk' addr (copy_in m (off % bsize) src i (disk' addr))))

-- Inodes in a block, and the block of an inode.
abbrev pub ipb : ℕ
ipb = 8

abbrev pub iblock : ℕ → Superblock → ℕ
iblock inum sb = inum / ipb + sb.inodestart

unfoldable pub put_addrs : ℕ → ℕ → ℕ → (ℕ → ℕ) → (ℕ → ℕ) → ℕ → ℕ
put_addrs zero k o addrs bytes = bytes
put_addrs (suc n) k o addrs bytes =
    put_addrs n (k + 1) o addrs (put_word (o + 4 * k) (addrs k) bytes)

-- `struct dinode` at a byte of a block.
unfoldable pub put_dinode : ℕ → Inode → (ℕ → ℕ) → ℕ → ℕ
put_dinode o ip bytes = put_addrs (ndirect + 1) 0 (o + 12) ip.addrs (
    put_word (o + 8) ip.size (
      put_half (o + 6) ip.nlink
        (put_half (o + 4) ip.minor (put_half (o + 2) ip.major (put_half o ip.type bytes)))))

unfoldable pub iupdate : Superblock → Inode → Disk → Disk
iupdate sb ip disk =
    let block = iblock ip.inum sb in
    update disk block (put_dinode (64 * (ip.inum % ipb)) ip (disk block))

abbrev pub wrote : Superblock → ℕ → ℕ → (Inode × Disk) → Option ℕ × Inode × Disk
wrote sb off n (ip, disk) =
    if ltb 0 n && ltb ip.size (off + n)
    then (some n, record ip { size = off + n }, iupdate sb (record ip { size = off + n }) disk)
    else (some n, ip, disk)

-- What a device of `devsw` does with bytes written to it: -1, or how many it took.
abbrev pub DevWrite : Type 0
DevWrite = (ℕ → ℕ) → ℕ → Option ℕ

abbrev pub device_write : Option DevWrite → (ℕ → ℕ) → ℕ → Option ℕ
device_write none src n = none
device_write (some write) src n = write src n

-- `writei`: the result -1 is `none`.
unfoldable pub writei :
    (ℕ → Option DevWrite)
    → Superblock
    → (ℕ → ℕ)
    → ℕ
    → ℕ
    → Inode
    → Disk
    → Result (Option ℕ × Inode × Disk)
writei devsw sb src off n ip disk =
    if ip.type == t_dev
    then ok (if no_device ip.major then none else device_write (devsw ip.major) src n, ip, disk)
    else if (ltb ip.size off || ltb ((off + n) % 2 ^ 32) off)
        || ltb (maxfile * bsize) ((off + n) % 2 ^ 32)
    then ok (none, ip, disk)
    else (write_from n sb src 0 off n ip disk >>= λ r. ok (wrote sb off n r))

-- The loops of `itrunc` over the direct blocks and over the entries of the indirect block.
unfoldable pub free_direct : Superblock → ℕ → ℕ → Inode → Disk → Result (Inode × Disk)
free_direct sb zero i ip disk = ok (ip, disk)
free_direct sb (suc rounds) i ip disk =
    let next = free_direct sb rounds (i + 1) ip disk in
    if ip.addrs i == 0
    then next
    else (bfree (ip.addrs i) sb disk >>= λ disk'.
        free_direct sb rounds (i + 1) (record ip { addrs = update ip.addrs i 0 }) disk')

unfoldable pub free_entries : Superblock → ℕ → ℕ → ℕ → Disk → Result Disk
free_entries sb zero j indirect disk = ok disk
free_entries sb (suc rounds) j indirect disk =
    let next = free_entries sb rounds (j + 1) indirect disk in
    if get_word (disk indirect) (4 * j) == 0
    then next
    else (bfree (get_word (disk indirect) (4 * j)) sb disk >>= λ disk'.
        free_entries sb rounds (j + 1) indirect disk')

unfoldable pub free_indirect : Superblock → Inode → Disk → Result (Inode × Disk)
free_indirect sb ip disk =
    if ip.addrs ndirect == 0
    then ok (ip, disk)
    else (free_entries sb nindirect 0 (ip.addrs ndirect) disk >>= λ disk'.
        bfree (ip.addrs ndirect) sb disk' >>= λ disk''.
        ok (record ip { addrs = update ip.addrs ndirect 0 }, disk''))

unfoldable pub itrunc : Superblock → Inode → Disk → Result (Inode × Disk)
itrunc sb ip disk = free_direct sb ndirect 0 ip disk >>= λ (ip', disk').
    free_indirect sb ip' disk' >>= λ (ip'', disk'').
    ok (record ip'' { size = 0 }, iupdate sb (record ip'' { size = 0 }) disk'')
