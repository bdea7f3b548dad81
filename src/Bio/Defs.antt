-- ===== src/Bio/Defs.antt =====
-- bio.c: the list of buffers, and bget and brelse, which look for a block in it and reorder it.
use graduation_prj.Base.{
  ℕ, zero, suc, ◌+◌, ◌-◌, ◌%◌, ◌^◌, Bool, false, not, ◌&&◌, List, [], ◌∷◌, Option, none, some, ◌==◌,
  if◌then◌else◌, Result, ok, stop, panic,
}

-- `struct buf`, without its lock, its data and its links. An address is an `id`.
pub record Buf : Type 0 where
  pub id : ℕ
  pub dev : ℕ
  pub blockno : ℕ
  pub refcnt : ℕ
  pub valid : Bool
  pub dirty : Bool

-- `binit`: each buffer, from the first, is put in front of the list, so the last is the head.
unfoldable pub binit : ℕ → List Buf
binit zero = []
binit (suc n) =
    record { id = n; dev = 0; blockno = 0; refcnt = 0; valid = false; dirty = false } ∷ binit n

abbrev pub caches : ℕ → ℕ → Buf → Bool
caches dev blockno b = (b.dev == dev) && (b.blockno == blockno)

abbrev pub is_unused : Buf → Bool
is_unused b = (b.refcnt == 0) && not b.dirty

-- The first loop of `bget`, from the most recently used buffer on.
unfoldable pub find_cached : ℕ → ℕ → List Buf → Option (Buf × List Buf)
find_cached dev blockno [] = none
find_cached dev blockno (b ∷ bs) =
    let rest = find_cached dev blockno bs in
    let held = record b { refcnt = (b.refcnt + 1) % 2 ^ 32 } in
    if caches dev blockno b
    then some (held, held ∷ bs)
    else elim rest [ none ↦ none | some (found, after) ↦ some (found, b ∷ after) ]

abbrev pub take_over : ℕ → ℕ → Buf → Buf
take_over dev blockno b = record {
  id = b.id;
  dev = dev;
  blockno = blockno;
  refcnt = 1;
  valid = false;
  dirty = false;
}

-- Its second loop, from the least recently used buffer on.
unfoldable pub recycle : ℕ → ℕ → List Buf → Option (Buf × List Buf)
recycle dev blockno [] = none
recycle dev blockno (b ∷ bs) = elim (recycle dev blockno bs) [
  | some (found, after) ↦ some (found, b ∷ after)
  | none ↦
      if is_unused b then some (take_over dev blockno b, take_over dev blockno b ∷ bs) else none
]

abbrev pub or_panic : Option (Buf × List Buf) → Result (Buf × List Buf)
or_panic none = stop panic
or_panic (some r) = ok r

abbrev pub or_recycle : ℕ → ℕ → List Buf → Option (Buf × List Buf) → Result (Buf × List Buf)
or_recycle dev blockno bs (some r) = ok r
or_recycle dev blockno bs none = or_panic (recycle dev blockno bs)

-- `bget`, up to the lock of the buffer that it returns.
unfoldable pub bget : ℕ → ℕ → List Buf → Result (Buf × List Buf)
bget dev blockno bs = or_recycle dev blockno bs (find_cached dev blockno bs)

-- The list without the buffer, and the buffer.
unfoldable pub unlink_buf : ℕ → List Buf → Option (Buf × List Buf)
unlink_buf id [] = none
unlink_buf id (b ∷ bs) =
    let rest = unlink_buf id bs in
    if b.id == id
    then some (b, bs)
    else elim rest [ none ↦ none | some (found, after) ↦ some (found, b ∷ after) ]

-- `b->refcnt--` where it stands.
unfoldable pub lower_refcnt : ℕ → List Buf → List Buf
lower_refcnt id [] = []
lower_refcnt id (b ∷ bs) =
    let rest = lower_refcnt id bs in
    if b.id == id then record b { refcnt = (b.refcnt + 2 ^ 32 - 1) % 2 ^ 32 } ∷ bs else b ∷ rest

abbrev pub to_front : List Buf → Option (Buf × List Buf) → List Buf
to_front bs none = bs
to_front bs (some (b, after)) = if b.refcnt == 0 then b ∷ after else bs

-- `brelse` after it has released the buffer's lock.
unfoldable pub brelse : ℕ → List Buf → List Buf
brelse id bs = let lowered = lower_refcnt id bs in to_front lowered (unlink_buf id lowered)
