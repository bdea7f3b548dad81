-- ===== src/Inodes/Defs.antt =====
-- fs.c: ialloc, iget, idup, ilock and iput. A `struct inode *` is an index of icache.inode; each
-- call runs without another between its critical sections, and the sleep-locks are left out.
use graduation_prj.Base.{
  ℕ, zero, suc, ◌+◌, ◌-◌, ◌*◌, ◌%◌, Bool, true, false, ◌&&◌, ◌||◌, Option, none, some, update, ltb,
  ◌==◌, if◌then◌else◌, Result, ok, stop, panic, ◌>>=◌,
}
use graduation_prj.Bitmap.Defs.{Disk, Superblock}
use graduation_prj.File.Words.{get_word, get_half}
use graduation_prj.File.Defs.{Inode, ndirect, ipb, iblock, iupdate, itrunc}

abbrev pub ninode : ℕ
ninode = 50

abbrev pub rootdev : ℕ
rootdev = 1

abbrev pub nvmedev : ℕ
nvmedev = 2

-- `struct inode`: what the cache keeps, and the copy of the disk's inode, with its number.
pub record Entry : Type 0 where
  pub dev : ℕ
  pub ref : ℕ
  pub valid : Bool
  pub node : Inode

abbrev pub Icache : Type 0
Icache = ℕ → Entry

-- The two devices: their blocks, and the superblocks `sb` and `nvmesb`.
pub record Devices : Type 0 where
  pub disk : ℕ → Disk
  pub sb : Superblock
  pub nvmesb : Superblock

abbrev pub sb_of : ℕ → Devices → Superblock
sb_of dev d = if dev == rootdev then d.sb else d.nvmesb

-- How the loop of `iget` ends: at an entry of the inode, or with the empty slot it remembers.
pub data Found : Type 0 where
  cached : ℕ → Found
  missing : Option ℕ → Found

abbrev pub is_cached : ℕ → ℕ → Entry → Bool
is_cached dev inum e = ltb 0 e.ref && ((e.dev == dev) && (e.node.inum == inum))

abbrev pub remember : ℕ → Entry → Option ℕ → Option ℕ
remember i e (some empty) = some empty
remember i e none = if e.ref == 0 then some i else none

unfoldable pub find_inode : ℕ → ℕ → ℕ → ℕ → Option ℕ → Icache → Found
find_inode zero i dev inum empty c = missing empty
find_inode (suc rounds) i dev inum empty c =
    let next = find_inode rounds (i + 1) dev inum (remember i (c i) empty) c in
    if is_cached dev inum (c i) then cached i else next

abbrev pub add_ref : ℕ → Icache → Icache
add_ref i c = update c i (record (c i) { ref = (c i).ref + 1 })

abbrev pub recycled : ℕ → ℕ → Entry → Entry
recycled dev inum e = record {
  dev = dev;
  ref = 1;
  valid = false;
  node = record (e.node) { inum = inum };
}

abbrev pub use_slot : ℕ → ℕ → Icache → Found → Result (ℕ × Icache)
use_slot dev inum c (cached i) = ok (i, add_ref i c)
use_slot dev inum c (missing none) = stop panic
use_slot dev inum c (missing (some i)) = ok (i, update c i (recycled dev inum (c i)))

unfoldable pub iget : ℕ → ℕ → Icache → Result (ℕ × Icache)
iget dev inum c = use_slot dev inum c (find_inode ninode 0 dev inum none c)

unfoldable pub idup : ℕ → Icache → ℕ × Icache
idup i c = (i, add_ref i c)

-- The fields of a `struct dinode` at a byte of a block; `addrs` has 13 entries.
abbrev pub get_dinode : ℕ → (ℕ → ℕ) → Inode → Inode
get_dinode o bytes ip = record ip {
  type = get_half bytes o;
  major = get_half bytes (o + 2);
  minor = get_half bytes (o + 4);
  nlink = get_half bytes (o + 6);
  size = get_word bytes (o + 8);
  addrs = λ k. if ltb k (ndirect + 1) then get_word bytes (o + 12 + 4 * k) else ip.addrs k;
}

-- The inode as its device has it.
abbrev pub read_inode : Superblock → Disk → Inode → Inode
read_inode sb disk ip = get_dinode (64 * (ip.inum % ipb)) (disk (iblock ip.inum sb)) ip

unfoldable pub ilock : ℕ → Devices → Icache → Result Icache
ilock i d c =
    let e = c i in
    let node = read_inode (sb_of e.dev d) (d.disk e.dev) e.node in
    if e.ref == 0
    then stop panic
    else if e.valid
    then ok c
    else if node.type == 0
    then stop panic
    else ok (update c i (record e { valid = true; node = node }))

-- The part of `iput` for an inode without links and without other references.
unfoldable pub free_inode : ℕ → Devices → Icache → Result (Devices × Icache)
free_inode i d c =
    let e = c i in
    itrunc (sb_of e.dev d) e.node (d.disk e.dev) >>= λ (node, disk).
    let node' = record node { type = 0 } in
    ok (
      record d { disk = update d.disk e.dev (iupdate (sb_of e.dev d) node' disk) },
      update c i (record e { valid = false; node = node' }),
    )

abbrev pub drop_ref : ℕ → Icache → Icache
drop_ref i c = update c i (record (c i) { ref = (c i).ref - 1 })

-- A reference is held when it is put, so the count does not fall below 0.
unfoldable pub iput : ℕ → Devices → Icache → Result (Devices × Icache)
iput i d c =
    let e = c i in
    (if e.valid && ((e.node.nlink == 0) && (e.ref == 1)) then free_inode i d c else ok (d, c))
    >>= λ (d', c'). ok (d', drop_ref i c')

-- `memset(dip, 0, sizeof(*dip)); dip->type = type`
abbrev pub blank_inode : ℕ → ℕ → Inode
blank_inode inum type = record {
  inum = inum;
  type = type;
  major = 0;
  minor = 0;
  nlink = 0;
  size = 0;
  addrs = λ _. 0;
}

-- The loop of `ialloc` for a device, with the rounds left, from `inum` on.
unfoldable pub find_free_inode : ℕ → ℕ → Superblock → Disk → Option ℕ
find_free_inode zero inum sb disk = none
find_free_inode (suc rounds) inum sb disk =
    let next = find_free_inode rounds (inum + 1) sb disk in
    if get_half (disk (iblock inum sb)) (64 * (inum % ipb)) == 0 then some inum else next

abbrev pub alloc_inode : ℕ → ℕ → Devices → Icache → Option ℕ → Result (ℕ × Devices × Icache)
alloc_inode dev type d c none = stop panic
alloc_inode dev type d c (some inum) = iget dev inum c >>= λ (i, c'). ok (
  i,
  record d {
    disk = update d.disk dev (iupdate (sb_of dev d) (blank_inode inum type) (d.disk dev));
  },
  c',
)

-- `ialloc` on one of the two devices: inodes 1 to ninodes - 1 are tried.
unfoldable pub ialloc : ℕ → ℕ → Devices → Icache → Result (ℕ × Devices × Icache)
ialloc dev type d c =
    if dev == rootdev || dev == nvmedev
    then alloc_inode dev type d c
        (find_free_inode ((sb_of dev d).ninodes - 1) 1 (sb_of dev d) (d.disk dev))
    else stop panic
