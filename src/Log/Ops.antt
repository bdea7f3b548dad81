-- ===== src/Log/Ops.antt =====
-- log.c: begin_op, end_op and log_write, and the file system calls that use them.
use graduation_prj.Base.{
  ℕ, zero, suc, ◌+◌, ◌-◌, ◌*◌, ◌≡◌, Option, none, some, Bool, true, false, List, ◌∷◌, ◌++◌, update,
  ltb, leb, ◌==◌, ◌||◌, if◌then◌else◌, Result, ok, stop, panic,
}
use graduation_prj.Log.Defs.{Block, Log, Device, logsize, maxopblocks, commit}

-- One round of the loop in `begin_op`: `none` is a sleep on the log.
unfoldable pub begin_op : Log → Option Log
begin_op l =
    if l.committing
    then none
    else (if ltb logsize (l.n + (l.outstanding + 1) * maxopblocks)
        then none
        else some (record l { outstanding = l.outstanding + 1 }))

-- `end_op` up to its first release: the result says whether this call commits.
unfoldable pub end_op : Log → Result (Log × Bool)
end_op l =
    if l.committing
    then stop panic
    else (if l.outstanding - 1 == 0
        then ok (record l { outstanding = l.outstanding - 1; committing = true }, true)
        else ok (record l { outstanding = l.outstanding - 1 }, false))

-- The rest of an `end_op` that commits.
unfoldable pub end_commit : Log → Device → Log × Device
end_commit l d = let (l', d') = commit l d in (record l' { committing = false }, d')

-- The index of `blockno` in the header, or `n` if it is not there.
unfoldable pub find_block : ℕ → ℕ → (ℕ → ℕ) → ℕ → ℕ
find_block zero i block blockno = i
find_block (suc rounds) i block blockno =
    let rest = find_block rounds (i + 1) block blockno in if block i == blockno then i else rest

-- `log_write` of a buffer with its contents: the buffer is pinned until the commit.
unfoldable pub log_write : ℕ → Block → Log → Device → Result (Log × Device)
log_write blockno contents l d =
    if leb logsize l.n || leb (l.size - 1) l.n
    then stop panic
    else (if ltb l.outstanding 1
        then stop panic
        else (let i = find_block l.n 0 l.block blockno in
            ok (
              record l { block = update l.block i blockno; n = if i == l.n then l.n + 1 else l.n },
              record d { cache = update d.cache blockno (some contents) },
            )))

-- The calls in progress, each with the number of blocks that it may still write.
pub record System : Type 0 where
  pub log : Log
  pub device : Device
  pub calls : List ℕ

-- What the calls do, in any order. A call that begins may write `maxopblocks` blocks.
pub data Step (s : System) : System → Type 0 where
  begin :
      {l : Log}
      → begin_op s.log ≡ some l
      → Step s (record s { log = l; calls = maxopblocks ∷ s.calls })
  write :
      (before after : List ℕ) (left blockno : ℕ) (contents : Block) {l : Log} {d : Device}
      → s.calls ≡ before ++ (suc left ∷ after)
      → log_write blockno contents s.log s.device ≡ ok (l, d)
      → Step s (record { log = l; device = d; calls = before ++ (left ∷ after) })
  finish :
      (before after : List ℕ) (left : ℕ) {l : Log} {commits : Bool}
      → s.calls ≡ before ++ (left ∷ after)
      → end_op s.log ≡ ok (l, commits)
      → Step s (record s { log = l; calls = before ++ after })
  commits :
      s.log.committing ≡ true
      → Step s
          (record s { log = (end_commit s.log s.device).0; device = (end_commit s.log s.device).1 })

pub data Reach (s : System) : System → Type 0 where
  here : Reach s s
  later : {t u : System} → Reach s t → Step t u → Reach s u
