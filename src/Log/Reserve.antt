-- ===== src/Log/Reserve.antt =====
-- The reservation of log space: a call that keeps to its number of blocks is never refused.
use graduation_prj.Base.{
  stop, panic, ℕ, zero, suc, ◌+◌, ◌-◌, ◌*◌, ◌≤◌, ◌<◌, ◌≡◌, inl, inr, some, Bool, true, false, List,
  [], ◌∷◌, ◌++◌, length, length-append, All, All-append, All-split, update, arith, ap, Bool-cases,
  ok, ◌==◌, if◌then◌else◌,
}
use mathlib.Core.Path.{subst}
use graduation_prj.Log.Defs.{Block, Log, Device, logsize, maxopblocks, commit}
use graduation_prj.Log.Ops.{
  begin_op, end_op, end_commit, find_block, log_write, System, Step, begin, write, finish, commits,
  Reach, here, later,
}

abbrev pub sum : List ℕ → ℕ
sum [] = 0
sum (x ∷ xs) = x + sum xs

sum-append : (xs ys : List ℕ) → sum (xs ++ ys) ≡ sum xs + sum ys
sum-append [] ys = omega arith
sum-append (x ∷ xs) ys = omega (arith, sum-append xs ys)

-- The calls in progress are counted; what they may still write fits in the log beside what is there;
-- none is in progress during a commit. The log has LOGSIZE blocks, as mkfs makes it, or more.
pub record IsReserved (s : System) : Type 0 where
  pub counted : s.log.outstanding ≡ length s.calls
  pub each : All (λ left. left ≤ maxopblocks) s.calls
  pub fits : s.log.n + sum s.calls ≤ logsize
  pub quiet : s.log.committing ≡ true → length s.calls ≡ 0
  pub room : logsize ≤ s.log.size

find_block-le : (rounds i : ℕ) (block : ℕ → ℕ) (b : ℕ) → find_block rounds i block b ≤ i + rounds
unfolding find_block
find_block-le zero i block b = omega arith
find_block-le (suc rounds) i block b = ground (arith, find_block-le rounds (i + 1) block b)

sum-le : (xs : List ℕ) → All (λ left. left ≤ maxopblocks) xs → sum xs ≤ length xs * maxopblocks
sum-le [] h = omega arith
sum-le (x ∷ xs) h = omega (arith, sum-le xs h.1)

begin-IsReserved :
    (s : System) {l : Log}
    → IsReserved s
    → begin_op s.log ≡ some l
    → IsReserved (record s { log = l; calls = maxopblocks ∷ s.calls })
unfolding begin_op
begin-IsReserved s r e = record {
  counted = ground (arith, r.counted);
  each = (omega arith, r.each);
  fits = ground (arith, r.counted, sum-le s.calls r.each, r.fits);
  quiet = λ c. ground arith;
  room = ground (arith, r.room);
}

-- The log after `log_write`.
abbrev noted : ℕ → Log → Log
noted blockno l =
    let i = find_block l.n 0 l.block blockno in
    record l { block = update l.block i blockno; n = if i == l.n then l.n + 1 else l.n }

-- A call that may still write a block is not refused, but for the last block of a log of LOGSIZE blocks.
abbrev pub WriteEnds : System → ℕ → Block → Type 0
WriteEnds s blockno contents =
    (s.log.n + 1 < s.log.size
      → (l : Log) × (d : Device) × (log_write blockno contents s.log s.device ≡ ok (l, d)))
    × (s.log.size ≤ s.log.n + 1
        → (log_write blockno contents s.log s.device ≡ stop panic)
          × (s.log.size ≡ 30)
          × (s.log.n ≡ 29))

-- What is noted fits, with a block to spare for the call.
log_write-room :
    (s : System) (before after : List ℕ) (left : ℕ)
    → IsReserved s
    → s.calls ≡ before ++ (suc left ∷ after)
    → (s.log.n < 30) × (1 ≤ s.log.outstanding)
log_write-room s before after left r e =
    let total = sum-append before (suc left ∷ after) in
    let many = length-append before (suc left ∷ after) in
    (omega (arith, r.fits, ap sum e, total), omega (arith, r.counted, ap length e, many))

log_write-WriteEnds :
    (s : System) (before after : List ℕ) (left blockno : ℕ) (contents : Block)
    → IsReserved s
    → s.calls ≡ before ++ (suc left ∷ after)
    → WriteEnds s blockno contents
unfolding log_write
log_write-WriteEnds s before after left blockno contents r e =
    let (few, open_calls) = log_write-room s before after left r e in
    (
      λ lt. (
        noted blockno s.log,
        record s.device { cache = update s.device.cache blockno (some contents) },
        ground (arith, few, open_calls, lt),
      ),
      λ full. (
        ground (arith, full),
        omega (arith, full, few, r.room),
        omega (arith, full, few, r.room),
      ),
    )

write-IsReserved :
    (s : System) (before after : List ℕ) (left blockno : ℕ) (contents : Block) {l : Log}
    {d : Device}
    → IsReserved s
    → s.calls ≡ before ++ (suc left ∷ after)
    → log_write blockno contents s.log s.device ≡ ok (l, d)
    → IsReserved (record { log = l; device = d; calls = before ++ (left ∷ after) })
unfolding log_write
write-IsReserved s before after left blockno contents {l} {d} r e w =
    let parts =
      All-split (λ x. x ≤ maxopblocks) before (suc left ∷ after)
        (subst (All (λ x. x ≤ maxopblocks)) e r.each) in
    record {
      counted = ground (
        arith,
        r.counted,
        ap length e,
        length-append before (suc left ∷ after),
        length-append before (left ∷ after),
      );
      each =
          All-append (λ x. x ≤ maxopblocks) before (left ∷ after) parts.0
            (omega (arith, parts.1.0), parts.1.1);
      fits = ground (
        arith,
        r.fits,
        ap sum e,
        sum-append before (suc left ∷ after),
        sum-append before (left ∷ after),
      );
      quiet = λ c. ground (
        arith,
        r.quiet,
        ap length e,
        length-append before (suc left ∷ after),
        length-append before (left ∷ after),
      );
      room = ground (arith, r.room);
    }

finish-IsReserved :
    (s : System) (before after : List ℕ) (left : ℕ) {l : Log} {c : Bool}
    → IsReserved s
    → s.calls ≡ before ++ (left ∷ after)
    → end_op s.log ≡ ok (l, c)
    → IsReserved (record s { log = l; calls = before ++ after })
unfolding end_op
finish-IsReserved s before after left {l} {c} r e w =
    let parts =
      All-split (λ x. x ≤ maxopblocks) before (left ∷ after)
        (subst (All (λ x. x ≤ maxopblocks)) e r.each) in
    record {
      counted = ground (
        arith,
        r.counted,
        ap length e,
        length-append before (left ∷ after),
        length-append before after,
      );
      each = All-append (λ x. x ≤ maxopblocks) before after parts.0 parts.1.1;
      fits =
          ground
            (arith, r.fits, ap sum e, sum-append before (left ∷ after), sum-append before after);
      quiet = λ k. ground (
        arith,
        r.counted,
        ap length e,
        length-append before (left ∷ after),
        length-append before after,
      );
      room = ground (arith, r.room);
    }

commits-IsReserved :
    (s : System)
    → IsReserved s
    → s.log.committing ≡ true
    → IsReserved
        (record s { log = (end_commit s.log s.device).0; device = (end_commit s.log s.device).1 })
unfolding end_commit commit
commits-IsReserved s r c = record {
  counted = ground (arith, r.counted);
  each = r.each;
  fits = ground (arith, r.fits);
  quiet = λ k. ground arith;
  room = ground (arith, r.room);
}

pub Step-IsReserved : {s t : System} → Step s t → IsReserved s → IsReserved t
Step-IsReserved {s} (begin e) r = begin-IsReserved s r e
Step-IsReserved {s} (write before after left blockno contents calls e) r =
    write-IsReserved s before after left blockno contents r calls e
Step-IsReserved {s} (finish before after left calls e) r =
    finish-IsReserved s before after left r calls e
Step-IsReserved {s} (commits c) r = commits-IsReserved s r c

-- Whatever calls begin, write, finish and commit, in any order: from a state where the space is
-- reserved every state has it reserved.
pub Reach-IsReserved : {s t : System} → IsReserved s → Reach s t → IsReserved t
Reach-IsReserved r here = r
Reach-IsReserved r (later path step) = Step-IsReserved step (Reach-IsReserved r path)

-- In every state that is reached with a log of LOGSIZE blocks or more, a call that has written fewer than
-- `maxopblocks` blocks may write another: `log_write` does not panic while the log has two blocks more
-- than are noted in it. Otherwise it panics, and then the log has exactly LOGSIZE = 30 blocks, as mkfs
-- makes it, and 29 are noted in it; in a log of more blocks this does not occur.
pub Reach-log_write-ok :
    {s t : System} (before after : List ℕ) (left blockno : ℕ) (contents : Block)
    → IsReserved s
    → Reach s t
    → t.calls ≡ before ++ (suc left ∷ after)
    → WriteEnds t blockno contents
Reach-log_write-ok {s} {t} before after left blockno contents r path e =
    log_write-WriteEnds t before after left blockno contents (Reach-IsReserved r path) e

-- In every state that is reached from one that keeps the reservation, with a log of LOGSIZE blocks or
-- more, a call in progress can end: `end_op` does not panic.
pub Reach-end_op-ok :
    {s t : System} (before after : List ℕ) (left : ℕ)
    → IsReserved s
    → Reach s t
    → t.calls ≡ before ++ (left ∷ after)
    → (l : Log) × (c : Bool) × (end_op t.log ≡ ok (l, c))
unfolding end_op
Reach-end_op-ok {s} {t} before after left r path e =
    let r' = Reach-IsReserved r path in
    elim (Bool-cases t.log.committing) [
      | inl during ↦
          absurd (omega (arith, r'.quiet during, ap length e, length-append before (left ∷ after)))
      | inr idle ↦ elim (Bool-cases (t.log.outstanding - 1 == 0)) [
        | inl last ↦ (
          record t.log { outstanding = t.log.outstanding - 1; committing = true },
          true,
          rw (idle, last),
        )
        | inr more ↦ (record t.log { outstanding = t.log.outstanding - 1 }, false, rw (idle, more))
      ]
    ]
