-- ===== src/Bitmap/Defs.antt =====
-- fs.c: balloc, bfree and bzero. A disk is its blocks' bytes as the buffers show them; each device has
-- the same code.
use graduation_prj.Base.{
  ℕ, zero, suc, ◌+◌, ◌-◌, ◌*◌, ◌/◌, ◌%◌, Option, none, some, update, ltb, ◌==◌, if◌then◌else◌,
  Result, ok, stop, panic,
}

-- The bits of a block of the bitmap.
abbrev pub bpb : ℕ
bpb = 4096

abbrev pub Disk : Type 0
Disk = ℕ → ℕ → ℕ

-- `struct superblock`, the fields read here.
pub record Superblock : Type 0 where
  pub size : ℕ
  pub ninodes : ℕ
  pub inodestart : ℕ
  pub bmapstart : ℕ

-- `(x >> k) & 1`, `x | (1 << k)` and `x & ~(1 << k)`.
unfoldable pub bit : ℕ → ℕ → ℕ
bit x zero = x % 2
bit x (suc k) = bit (x / 2) k

unfoldable pub set_bit : ℕ → ℕ → ℕ
set_bit x zero = x + (1 - x % 2)
set_bit x (suc k) = x % 2 + 2 * set_bit (x / 2) k

unfoldable pub clear_bit : ℕ → ℕ → ℕ
clear_bit x zero = x - x % 2
clear_bit x (suc k) = x % 2 + 2 * clear_bit (x / 2) k

-- `BBLOCK(b, sb)`
abbrev pub bblock : ℕ → Superblock → ℕ
bblock b sb = b / bpb + sb.bmapstart

-- `bp->data[bi/8]` becomes the byte given.
abbrev pub write_byte : ℕ → ℕ → ℕ → Disk → Disk
write_byte block bi byte disk = update disk block (update (disk block) (bi / 8) byte)

abbrev pub bzero : ℕ → Disk → Disk
bzero block disk = update disk block (λ _. 0)

-- The inner loop of `balloc`, for the block of the bitmap that starts at `b`, with the rounds left.
unfoldable pub find_bit : ℕ → ℕ → ℕ → ℕ → (ℕ → ℕ) → Option ℕ
find_bit zero bi b size bytes = none
find_bit (suc rounds) bi b size bytes =
    let rest = find_bit rounds (bi + 1) b size bytes in
    if ltb (b + bi) size
    then (if bit (bytes (bi / 8)) (bi % 8) == 0 then some bi else rest)
    else none

-- The bit is set, the block is zeroed and returned.
unfoldable pub take_block : ℕ → ℕ → Superblock → Disk → ℕ × Disk
take_block b bi sb disk =
    let block = bblock b sb in
    (b + bi, bzero (b + bi) (write_byte block bi (set_bit (disk block (bi / 8)) (bi % 8)) disk))

abbrev pub or_next : ℕ → Superblock → Disk → Option ℕ → Result (ℕ × Disk) → Result (ℕ × Disk)
or_next b sb disk none next = next
or_next b sb disk (some bi) next = ok (take_block b bi sb disk)

-- The outer loop, with the rounds left.
unfoldable pub balloc_from : ℕ → ℕ → Superblock → Disk → Result (ℕ × Disk)
balloc_from zero b sb disk = stop panic
balloc_from (suc rounds) b sb disk =
    let next = balloc_from rounds (b + bpb) sb disk in
    if ltb b sb.size
    then or_next b sb disk (find_bit bpb 0 b sb.size (disk (bblock b sb))) next
    else stop panic

-- One round for each block of the bitmap, and one more for the last test.
unfoldable pub balloc : Superblock → Disk → Result (ℕ × Disk)
balloc sb disk = balloc_from (sb.size / bpb + 1) 0 sb disk

unfoldable pub bfree : ℕ → Superblock → Disk → Result Disk
bfree b sb disk =
    let block = bblock b sb in
    let bi = b % bpb in
    let byte = disk block (bi / 8) in
    if bit byte (bi % 8) == 0
    then stop panic
    else ok (write_byte block bi (clear_bit byte (bi % 8)) disk)
