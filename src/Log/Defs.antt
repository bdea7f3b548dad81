-- ===== src/Log/Defs.antt =====
-- log.c: the log of one device, its copy on disk, and commit and recovery. The C has each function
-- twice, for `log` with ROOTDEV and for `nvmelog` with NVMEDEV; here they take the log and its device.
use graduation_prj.Base.{
  ℕ, zero, suc, ◌+◌, ◌*◌, Option, none, some, Bool, update, ltb, false, if◌then◌else◌,
}

abbrev pub maxopblocks : ℕ
maxopblocks = 10

abbrev pub logsize : ℕ
logsize = maxopblocks * 3

-- A disk block as the 32-bit words that it is made of.
abbrev pub Block : Type 0
Block = ℕ → ℕ

-- `struct log`, with its `struct logheader` as `n` and `block`.
pub record Log : Type 0 where
  pub start : ℕ
  pub size : ℕ
  pub outstanding : ℕ
  pub committing : Bool
  pub n : ℕ
  pub block : ℕ → ℕ

-- A device below the log: what is on disk, and the buffers that are modified and pinned (B_DIRTY);
-- a clean buffer holds what the disk holds. Power fails after `writes_left` more disk writes: what
-- is written later is lost.
pub record Device : Type 0 where
  pub disk : ℕ → Block
  pub cache : ℕ → Option Block
  pub writes_left : ℕ

unfoldable pub bread : ℕ → Device → Block
bread b d = elim (d.cache b) [ none ↦ d.disk b | some v ↦ v ]

-- `bwrite` writes a whole block, after which the buffer is clean.
unfoldable pub bwrite : ℕ → Block → Device → Device
bwrite b v d = elim d.writes_left [
  | zero ↦ d
  | suc left ↦ record {
    disk = update d.disk b v;
    cache = update d.cache b none;
    writes_left = left;
  }
]

-- The loop of `write_log` from `tail` on, with the rounds left.
unfoldable pub write_log_from : ℕ → ℕ → Log → Device → Device
write_log_from zero tail l d = d
write_log_from (suc rounds) tail l d =
    write_log_from rounds (tail + 1) l (bwrite (l.start + tail + 1) (bread (l.block tail) d) d)

unfoldable pub write_log : Log → Device → Device
write_log l d = write_log_from l.n 0 l d

-- The loop of `install_trans`.
unfoldable pub install_from : ℕ → ℕ → Log → Device → Device
install_from zero tail l d = d
install_from (suc rounds) tail l d =
    install_from rounds (tail + 1) l (bwrite (l.block tail) (bread (l.start + tail + 1) d) d)

unfoldable pub install_trans : Log → Device → Device
install_trans l d = install_from l.n 0 l d

-- `hb->block[i] = lh.block[i]` for `i` from `tail` on: the header's words follow its count.
unfoldable pub put_blocks : ℕ → ℕ → (ℕ → ℕ) → Block → Block
put_blocks zero i block hb = hb
put_blocks (suc rounds) i block hb = put_blocks rounds (i + 1) block (update hb (i + 1) (block i))

unfoldable pub write_head : Log → Device → Device
write_head l d = bwrite l.start (put_blocks l.n 0 l.block (update (bread l.start d) 0 l.n)) d

-- `lh.block[i] = hb->block[i]` for `i` from `tail` on.
unfoldable pub get_blocks : ℕ → ℕ → Block → (ℕ → ℕ) → ℕ → ℕ
get_blocks zero i hb block = block
get_blocks (suc rounds) i hb block = get_blocks rounds (i + 1) hb (update block i (hb (i + 1)))

unfoldable pub read_head : Log → Device → Log
read_head l d =
    let hb = bread l.start d in record l { n = hb 0; block = get_blocks (hb 0) 0 hb l.block }

unfoldable pub recover_from_log : Log → Device → Log × Device
recover_from_log l d =
    let l' = read_head l d in
    let d' = install_trans l' d in
    let cleared = record l' { n = 0 } in (cleared, write_head cleared d')

unfoldable pub commit : Log → Device → Log × Device
commit l d =
    if ltb 0 l.n
    then (let d₁ = write_log l d in
        let d₂ = write_head l d₁ in
        let d₃ = install_trans l d₂ in
        let cleared = record l { n = 0 } in (cleared, write_head cleared d₃))
    else (l, d)

-- The machine starts again on what is on disk, and loses no more writes.
unfoldable pub restart : ℕ → Device → Device
restart writes d = record { disk = d.disk; cache = λ _. none; writes_left = writes }

-- `initlog`: the zeroed structure with the place of the log from the superblock, and recovery.
abbrev pub booted : ℕ → ℕ → Log
booted start size = record {
  start = start;
  size = size;
  outstanding = 0;
  committing = false;
  n = 0;
  block = λ _. 0;
}

unfoldable pub initlog : ℕ → ℕ → Device → Log × Device
initlog start size d = recover_from_log (booted start size) d
