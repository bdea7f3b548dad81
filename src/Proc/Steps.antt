-- ===== src/Proc/Steps.antt =====
-- The process table under every order of the critical sections of proc.c.
use graduation_prj.Base.{
  ℕ, zero, suc, ◌+◌, ◌<◌, ◌≤◌, ◌≡◌, ◌≢◌, ◌⊎◌, inl, inr, refl, sym, ap, true, false, Option, none,
  some, update, arith, Bool-cases, ne→==,
}
use mathlib.Core.Path.{subst}
use graduation_prj.Proc.Defs.{
  ProcState, unused, embryo, sleeping, runnable, running, zombie, Proc, Table, nproc, metas,
  is_state, wakeup1, allocproc, find_unused, find_meta, take_meta, make_embryo, fill_found,
  alloc_stack, drop_child, set_parent, make_runnable, schedule, yield_cpu, sleep_on, tidy_up,
  kill_from, exit_locked, release_meta, wait_once, waited_for, wait_sleeps,
}
use graduation_prj.Proc.Family.{is_alive, is_null, is_waiting, IsFamily}
use graduation_prj.Proc.Wakeup.{wakeup1-Rooted, wakeup1-Noticed}
use graduation_prj.Proc.Exit.{exit_locked-IsFamily, alive_placed}
use graduation_prj.Proc.Changes.{
  live_change, unplaced_change, same_change, reap-IsFamily, parent-IsFamily, kill_from-IsFamily,
  after_kill, NoZombie,
}
use graduation_prj.Proc.Wait.{WaitOutcome, wait_once-WaitOutcome}

-- A process `cur` of the table that runs; an entry `i` that `fork` or `userinit` is filling, which no
-- other process touches. Only `wait` sleeps on a process's address.
pub data Step : Table → Table → Type 0 where
  allocates : (t after : Table) (i : ℕ) → allocproc t ≡ some (i, after) → Step t after
  stacks :
      (t : Table) (i : ℕ) (stack : Option ℕ)
      → (t.proc i).state ≡ embryo
      → Step t (alloc_stack i stack t).1
  drops : (t : Table) (i : ℕ) → (t.proc i).state ≡ embryo → Step t (drop_child i t)
  adopts :
      (t : Table) (i cur : ℕ)
      → i < nproc
      → cur < nproc
      → (t.proc i).state ≡ embryo
      → (t.proc cur).state ≡ running
      → Step t (set_parent i cur t)
  readies :
      (t : Table) (i : ℕ)
      → (t.proc i).state ≡ embryo
      → is_null (t.proc i).parent ≡ false
      → Step t (make_runnable i t)
  schedules : (t after : Table) (i : ℕ) → schedule i t ≡ some after → Step t after
  yields : (t : Table) (cur : ℕ) → (t.proc cur).state ≡ running → Step t (yield_cpu cur t)
  sleeps :
      (t : Table) (cur chan : ℕ)
      → cur < nproc
      → nproc ≤ chan
      → (t.proc cur).state ≡ running
      → Step t (sleep_on cur chan t)
  tidies : (t : Table) (cur : ℕ) → (t.proc cur).state ≡ running → Step t (tidy_up cur t)
  wakes : (t : Table) (chan : ℕ) → Step t (record t { proc = wakeup1 chan t.proc })
  kills :
      (t : Table) (pid : ℕ)
      → Step t (record t { proc = after_kill t.proc (kill_from nproc 0 pid t.proc) })
  releases : (t : Table) (cur : ℕ) → (t.proc cur).state ≡ running → Step t (release_meta cur t)
  exits :
      (t : Table) (cur : ℕ)
      → (t.proc cur).state ≡ running
      → cur ≢ t.initproc
      → Step t (exit_locked cur t)
  reaped :
      (t after : Table) (cur pid : ℕ)
      → (t.proc cur).state ≡ running
      → wait_once cur t ≡ waited_for pid after
      → Step t after
  waits :
      (t after : Table) (cur : ℕ)
      → (t.proc cur).state ≡ running
      → wait_once cur t ≡ wait_sleeps after
      → Step t after

pub data Reach : Table → Table → Type 0 where
  here : (t : Table) → Reach t t
  later : {t u v : Table} → Reach t u → Step u v → Reach t v

abbrev IsTable : Table → Type 0
IsTable t = IsFamily t.initproc t.proc

abbrev Allocated : Table → Option (ℕ × Table) → Type 0
Allocated t none = t.initproc ≡ t.initproc
Allocated t (some (i, after)) = IsTable after

abbrev Found : (ℕ → Proc) → Option ℕ → Type 0
Found proc none = proc ≡ proc
Found proc (some i) = is_state (proc i).state unused ≡ true

find_unused-Found : (rounds i : ℕ) (proc : ℕ → Proc) → Found proc (find_unused rounds i proc)
unfolding find_unused
find_unused-Found zero i proc = refl
find_unused-Found (suc rounds) i proc = elim (Bool-cases (is_state (proc i).state unused)) [
  | inl h ↦ rw h h
  | inr h ↦ rw h (find_unused-Found rounds (i + 1) proc)
]

unused_alive : (s : ProcState) → is_state s unused ≡ true → is_alive s ≡ false
unused_alive unused h = refl
unused_alive embryo h = refl
unused_alive zombie h = refl
unused_alive sleeping h = absurd (ground (arith, h))
unused_alive runnable h = absurd (ground (arith, h))
unused_alive running h = absurd (ground (arith, h))

runnable_alive : (s : ProcState) → is_state s runnable ≡ true → is_alive s ≡ true
runnable_alive runnable h = refl
runnable_alive unused h = absurd (ground (arith, h))
runnable_alive embryo h = absurd (ground (arith, h))
runnable_alive zombie h = absurd (ground (arith, h))
runnable_alive sleeping h = absurd (ground (arith, h))
runnable_alive running h = absurd (ground (arith, h))

take_meta-IsTable :
    (i : ℕ) (found : Option ℕ) (t : Table) → IsTable t → IsTable (take_meta i found t)
unfolding take_meta
take_meta-IsTable i none t f = f
take_meta-IsTable i (some j) t f =
    same_change t.initproc i t.proc (record (t.proc i) { meta_idx_idx = j }) f refl refl refl

fill_found-Allocated :
    (t : Table) (found : Option ℕ)
    → IsTable t
    → Found t.proc found
    → Allocated t (fill_found t found)
unfolding fill_found
fill_found-Allocated t none f free = refl
fill_found-Allocated t (some i) f free =
    take_meta-IsTable i (find_meta metas 0 (make_embryo i t)) (make_embryo i t) (
      unfold make_embryo in
      unplaced_change t.initproc i t.proc (record (t.proc i) { state = embryo; pid = t.nextpid }) f
        refl refl (unused_alive (t.proc i).state free))

allocproc-Allocated : (t : Table) → IsTable t → Allocated t (allocproc t)
unfolding allocproc
allocproc-Allocated t f =
    fill_found-Allocated t (find_unused nproc 0 t.proc) f (find_unused-Found nproc 0 t.proc)

abbrev Scheduled : Option Table → Type 0
Scheduled none = zero ≡ zero
Scheduled (some after) = IsTable after

-- A live process changes its state and its channel, and does not go to sleep in `wait`.
moves :
    (init cur : ℕ) (proc : ℕ → Proc) (p : Proc)
    → IsFamily init proc
    → is_alive (proc cur).state ≡ true
    → p.parent ≡ (proc cur).parent
    → is_alive p.state ≡ true
    → (is_waiting cur p ≡ false) ⊎ NoZombie cur proc
    → IsFamily init (update proc cur p)
moves init cur proc p f a same live quiet =
    live_change init cur proc p f same live
      (λ ne. f.rooted.has_parent cur ne (alive_placed (proc cur).state a)) quiet

schedule-Scheduled : (t : Table) (i : ℕ) → IsTable t → Scheduled (schedule i t)
unfolding schedule
schedule-Scheduled t i f = elim (Bool-cases (is_state (t.proc i).state runnable)) [
  | inl h ↦ rw h (
      moves t.initproc i t.proc (record (t.proc i) { state = running }) f
        (runnable_alive (t.proc i).state h) refl refl (inl refl))
  | inr h ↦ rw h refl
]

reaped-IsTable :
    (t after : Table) (cur pid : ℕ)
    → IsTable t
    → WaitOutcome cur t (waited_for pid after)
    → IsTable after
reaped-IsTable t after cur pid f (k, lt, child, z, same, e, _, _) =
    subst IsTable (sym e) (reap-IsFamily t.initproc k t.proc f z)

waits-IsTable :
    (t after : Table) (cur : ℕ)
    → IsTable t
    → is_alive (t.proc cur).state ≡ true
    → WaitOutcome cur t (wait_sleeps after)
    → IsTable after
waits-IsTable t after cur f a (quiet, child, awake, e, _, _, _) = subst IsTable (sym e) (
    unfold sleep_on in
    moves t.initproc cur t.proc (record (t.proc cur) { chan = some cur; state = sleeping }) f a refl
      refl (inr (λ k h. quiet k (f.rooted.parent_alive k cur h).0 h)))

Step-IsTable : {t u : Table} → Step t u → IsTable t → IsTable u
Step-IsTable (allocates t after i e) f = subst (Allocated t) e (allocproc-Allocated t f)
Step-IsTable (stacks t i none e) f =
    unfold alloc_stack in
    unplaced_change t.initproc i t.proc (record (t.proc i) { kstack = none; state = unused }) f refl
      refl (ap is_alive e)
Step-IsTable (stacks t i (some stack) e) f =
    unfold alloc_stack in
    same_change t.initproc i t.proc (record (t.proc i) { kstack = some stack }) f refl refl refl
Step-IsTable (drops t i e) f =
    unfold drop_child in
    unplaced_change t.initproc i t.proc (record (t.proc i) { kstack = none; state = unused }) f refl
      refl (ap is_alive e)
Step-IsTable (adopts t i cur lt cur_lt e run) f =
    unfold set_parent in parent-IsFamily t.initproc i cur t.proc f lt cur_lt e (ap is_alive run)
Step-IsTable (readies t i e has) f =
    unfold make_runnable in
    live_change t.initproc i t.proc (record (t.proc i) { state = runnable }) f refl refl (λ _. has)
      (inl refl)
Step-IsTable (schedules t after i e) f = subst Scheduled e (schedule-Scheduled t i f)
Step-IsTable (yields t cur run) f =
    unfold yield_cpu make_runnable in
    moves t.initproc cur t.proc (record (t.proc cur) { state = runnable }) f (ap is_alive run) refl
      refl (inl refl)
Step-IsTable (sleeps t cur chan lt far run) f =
    unfold sleep_on in
    moves t.initproc cur t.proc (record (t.proc cur) { chan = some chan; state = sleeping }) f
      (ap is_alive run) refl refl (inl (ne→== chan cur (λ e. omega (arith, e, lt, far))))
Step-IsTable (tidies t cur run) f =
    unfold tidy_up in
    moves t.initproc cur t.proc (record (t.proc cur) { chan = none }) f (ap is_alive run) refl
      (ap is_alive run) (inl (ground (arith, ap (λ s. is_state s sleeping) run)))
Step-IsTable (wakes t chan) f = record {
  rooted = wakeup1-Rooted chan t.initproc t.proc f.rooted;
  noticed = wakeup1-Noticed chan t.proc f.noticed;
}
Step-IsTable (kills t pid) f = kill_from-IsFamily nproc 0 pid t.initproc t.proc f
Step-IsTable (releases t cur run) f = unfold release_meta in f
Step-IsTable (exits t cur run ne) f =
    unfold exit_locked in exit_locked-IsFamily cur t f ne (ap is_alive run)
Step-IsTable (reaped t after cur pid run e) f =
    reaped-IsTable t after cur pid f (subst (WaitOutcome cur t) e (wait_once-WaitOutcome cur t))
Step-IsTable (waits t after cur run e) f =
    waits-IsTable t after cur f (ap is_alive run)
      (subst (WaitOutcome cur t) e (wait_once-WaitOutcome cur t))

-- In every table that steps lead to from one that is a family, it is one: parents are alive, each
-- process in the table but `init` has a parent, `init` is alive, and no process sleeps in `wait`
-- while it has a zombie child, so that none misses the exit of a child.
pub Reach-IsFamily :
    (t u : Table) → Reach t u → IsFamily t.initproc t.proc → IsFamily u.initproc u.proc
Reach-IsFamily t u (here _) f = f
Reach-IsFamily t v (later r step) f = Step-IsTable step (Reach-IsFamily t _ r f)
