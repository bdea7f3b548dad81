-- ===== src/Proc/Defs.antt =====
-- proc.c: the process table and the critical sections on its lock.
use graduation_prj.Base.{
  ℕ, zero, suc, ◌+◌, ◌%◌, ◌^◌, Bool, true, false, ◌&&◌, ◌||◌, Option, none, some, update, ◌==◌,
  if◌then◌else◌,
}

abbrev pub nproc : ℕ
nproc = 64

-- The entries of `metaidx_flag` and `cache_meta_idx`.
abbrev pub metas : ℕ
metas = 70

pub data ProcState : Type 0 where
  unused : ProcState
  embryo : ProcState
  sleeping : ProcState
  runnable : ProcState
  running : ProcState
  zombie : ProcState

abbrev pub is_state : ProcState → ProcState → Bool
is_state unused unused = true
is_state embryo embryo = true
is_state sleeping sleeping = true
is_state runnable runnable = true
is_state running running = true
is_state zombie zombie = true
is_state _ _ = false

-- `p == q` on pointers that may be null.
abbrev pub is_some : Option ℕ → ℕ → Bool
is_some none y = false
is_some (some x) y = x == y

-- `struct proc`, the fields that scheduling reads and writes. A process's address is its place in
-- the table, and the other addresses that processes sleep on are numbers from `nproc` on.
pub record Proc : Type 0 where
  pub state : ProcState
  pub pid : ℕ
  pub parent : Option ℕ
  pub chan : Option ℕ
  pub killed : Bool
  pub kstack : Option ℕ
  pub meta_idx_idx : ℕ

pub record Table : Type 0 where
  pub proc : ℕ → Proc
  pub nextpid : ℕ
  pub initproc : ℕ
  pub metaidx_flag : ℕ → Bool
  pub cache_meta_idx : ℕ → ℕ

-- The search of `allocproc`, with the entries left.
unfoldable pub find_unused : ℕ → ℕ → (ℕ → Proc) → Option ℕ
find_unused zero i proc = none
find_unused (suc rounds) i proc =
    let rest = find_unused rounds (i + 1) proc in
    if is_state (proc i).state unused then some i else rest

-- Its search for an entry of the page cache's table that no process has.
unfoldable pub find_meta : ℕ → ℕ → Table → Option ℕ
find_meta zero i t = none
find_meta (suc rounds) i t =
    let rest = find_meta rounds (i + 1) t in
    if t.cache_meta_idx i == 255 && (if t.metaidx_flag i then false else true) then some i else rest

-- The process `i` gets the entry found, if one is.
unfoldable pub take_meta : ℕ → Option ℕ → Table → Table
take_meta i none t = t
take_meta i (some j) t = record t {
  proc = update t.proc i (record (t.proc i) { meta_idx_idx = j });
  metaidx_flag = update t.metaidx_flag j true;
}

-- The entry found, with the next `pid`.
unfoldable pub make_embryo : ℕ → Table → Table
make_embryo i t = record t {
  proc = update t.proc i (record (t.proc i) { state = embryo; pid = t.nextpid });
  nextpid = (t.nextpid + 1) % 2 ^ 32;
}

-- `allocproc` from the label `found` to the end of its critical section.
unfoldable pub fill_found : Table → Option ℕ → Option (ℕ × Table)
fill_found t none = none
fill_found t (some i) =
    let filled = make_embryo i t in some (i, take_meta i (find_meta metas 0 filled) filled)

-- `allocproc` while it holds the lock: the new process, if an entry is free.
unfoldable pub allocproc : Table → Option (ℕ × Table)
allocproc t = fill_found t (find_unused nproc 0 t.proc)

-- Its rest, with the answer of `kalloc`: `false` is the result 0.
unfoldable pub alloc_stack : ℕ → Option ℕ → Table → Bool × Table
alloc_stack i none t = (
  false,
  record t { proc = update t.proc i (record (t.proc i) { kstack = none; state = unused }) },
)
alloc_stack i (some stack) t =
    (true, record t { proc = update t.proc i (record (t.proc i) { kstack = some stack }) })

-- `fork` when `copyuvm` fails.
unfoldable pub drop_child : ℕ → Table → Table
drop_child i t = record t {
  proc = update t.proc i (record (t.proc i) { kstack = none; state = unused });
}

-- `fork` when it does not, up to its second critical section and in it.
unfoldable pub set_parent : ℕ → ℕ → Table → Table
set_parent i cur t = record t { proc = update t.proc i (record (t.proc i) { parent = some cur }) }

unfoldable pub make_runnable : ℕ → Table → Table
make_runnable i t = record t { proc = update t.proc i (record (t.proc i) { state = runnable }) }

abbrev pub wake_one : ℕ → Proc → Proc
wake_one chan p =
    if is_state p.state sleeping && is_some p.chan chan then record p { state = runnable } else p

-- The loop of `wakeup1`, with the entries left.
unfoldable pub wakeup_from : ℕ → ℕ → ℕ → (ℕ → Proc) → ℕ → Proc
wakeup_from zero i chan proc = proc
wakeup_from (suc rounds) i chan proc =
    wakeup_from rounds (i + 1) chan (update proc i (wake_one chan (proc i)))

unfoldable pub wakeup1 : ℕ → (ℕ → Proc) → ℕ → Proc
wakeup1 chan proc = wakeup_from nproc 0 chan proc

-- One entry of the loop of `exit` over the abandoned children.
unfoldable pub pass_child : ℕ → ℕ → ℕ → (ℕ → Proc) → ℕ → Proc
pass_child cur init i proc =
    let passed = update proc i (record (proc i) { parent = some init }) in
    if is_some (proc i).parent cur
    then (if is_state (proc i).state zombie then wakeup1 init passed else passed)
    else proc

unfoldable pub pass_from : ℕ → ℕ → ℕ → ℕ → (ℕ → Proc) → ℕ → Proc
pass_from zero i cur init proc = proc
pass_from (suc rounds) i cur init proc =
    pass_from rounds (i + 1) cur init (pass_child cur init i proc)

-- `wakeup1(curproc->parent)`: a null pointer is no process's channel.
abbrev pub wakeup_parent : Option ℕ → (ℕ → Proc) → ℕ → Proc
wakeup_parent none proc = proc
wakeup_parent (some p) proc = wakeup1 p proc

-- `exit` gives back its entry of the page cache's table, before it takes the lock.
unfoldable pub release_meta : ℕ → Table → Table
release_meta cur t =
    let j = (t.proc cur).meta_idx_idx in
    record t {
      metaidx_flag = update t.metaidx_flag j false;
      cache_meta_idx = update t.cache_meta_idx j 255;
    }

-- `exit` while it holds the lock.
unfoldable pub exit_locked : ℕ → Table → Table
exit_locked cur t =
    let woken = wakeup_parent (t.proc cur).parent t.proc in
    let passed = pass_from nproc 0 cur t.initproc woken in
    record t { proc = update passed cur (record (passed cur) { state = zombie }) }

-- What the scan of `wait` finds: a zombie child, or whether there are children.
pub data Scan : Type 0 where
  reaps : ℕ → Scan
  havekids : Bool → Scan

unfoldable pub scan_from : ℕ → ℕ → ℕ → Bool → (ℕ → Proc) → Scan
scan_from zero i cur kids proc = havekids kids
scan_from (suc rounds) i cur kids proc =
    let child = is_some (proc i).parent cur in
    let rest = scan_from rounds (i + 1) cur (kids || child) proc in
    if child && is_state (proc i).state zombie then reaps i else rest

abbrev pub reap : Proc → Proc
reap p = record p { kstack = none; pid = 0; parent = none; killed = false; state = unused }

-- `sleep` on `chan`, up to `sched`.
unfoldable pub sleep_on : ℕ → ℕ → Table → Table
sleep_on cur chan t = record t {
  proc = update t.proc cur (record (t.proc cur) { chan = some chan; state = sleeping });
}

-- Where one round of `wait` gets to: it returns a child's `pid`, it returns -1, or it sleeps.
pub data Waited : Type 0 where
  waited_for : ℕ → Table → Waited
  no_child : Waited
  wait_sleeps : Table → Waited

unfoldable pub wait_once : ℕ → Table → Waited
wait_once cur t = elim (scan_from nproc 0 cur false t.proc) [
  | reaps i ↦ waited_for (t.proc i).pid (record t { proc = update t.proc i (reap (t.proc i)) })
  | havekids kids ↦
      if (if kids then false else true) || (t.proc cur).killed
      then no_child
      else wait_sleeps (sleep_on cur cur t)
]

-- `scheduler` runs the process `i` if it may.
unfoldable pub schedule : ℕ → Table → Option Table
schedule i t =
    if is_state (t.proc i).state runnable
    then some (record t { proc = update t.proc i (record (t.proc i) { state = running }) })
    else none

-- `yield`, up to `sched`.
unfoldable pub yield_cpu : ℕ → Table → Table
yield_cpu cur t = make_runnable cur t

-- `sleep` after `sched`.
unfoldable pub tidy_up : ℕ → Table → Table
tidy_up cur t = record t { proc = update t.proc cur (record (t.proc cur) { chan = none }) }

-- The loop of `kill`, with the entries left: `none` is the result -1.
unfoldable pub kill_from : ℕ → ℕ → ℕ → (ℕ → Proc) → Option (ℕ → Proc)
kill_from zero i pid proc = none
kill_from (suc rounds) i pid proc =
    let rest = kill_from rounds (i + 1) pid proc in
    let killed = record (proc i) { killed = true } in
    if (proc i).pid == pid
    then some (
        update proc i
          (if is_state (proc i).state sleeping then record killed { state = runnable } else killed))
    else rest
