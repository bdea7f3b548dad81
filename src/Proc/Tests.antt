-- ===== src/Proc/Tests.antt =====
-- A parent that waits for a child, on a concrete table: witnesses of the theorems and runs of the
-- code.
use graduation_prj.Base.{
  ℕ, zero, suc, ◌≡◌, ◌≢◌, ◌<◌, ==→eq, sym, refl, ap, true, false, Option, none, some, update, arith,
  ℕ_discrete,
}
use graduation_prj.Proc.Defs.{
  ProcState, unused, running, zombie, Proc, Table, wait_once, exit_locked, nproc, is_some, is_state,
  waited_for, reap, scan_from, pass_from, pass_child, wakeup1, wakeup_from,
}
use graduation_prj.Proc.Family.{IsFamily, is_alive, is_null, is_placed}
use graduation_prj.Proc.Steps.{Reach, here, later, exits, Reach-IsFamily}
use graduation_prj.Proc.Wait.{WaitOutcome, wait_once-WaitOutcome}

abbrev entry : ProcState → ℕ → Option ℕ → Proc
entry state pid parent = record {
  state = state;
  pid = pid;
  parent = parent;
  chan = none;
  killed = false;
  kstack = none;
  meta_idx_idx = 0;
}

-- `init` runs and so does its child.
abbrev procs : ℕ → Proc
procs zero = entry running 1 none
procs (suc zero) = entry running 2 (some 0)
procs (suc (suc i)) = entry unused 0 none

abbrev table : Table
table = record {
  proc = procs;
  nextpid = 3;
  initproc = 0;
  metaidx_flag = λ _. false;
  cache_meta_idx = λ _. 255;
}

procs-parents :
    (i j : ℕ)
    → is_some (procs i).parent j ≡ true
    → (i < nproc) × (j < nproc) × (is_alive (procs j).state ≡ true)
procs-parents zero j h = absurd (ground (arith, h))
procs-parents (suc zero) j h = (
  omega arith,
  omega (arith, ==→eq 0 j h),
  ap (λ k. is_alive (procs k).state) (sym (==→eq 0 j h)),
)
procs-parents (suc (suc i)) j h = absurd (ground (arith, h))

procs-apart : (i : ℕ) → is_some (procs i).parent i ≡ false
procs-apart zero = refl
procs-apart (suc zero) = refl
procs-apart (suc (suc i)) = refl

procs-placed : (i : ℕ) → i ≢ 0 → is_placed (procs i).state ≡ true → is_null (procs i).parent ≡ false
procs-placed zero ne h = absurd (ne refl)
procs-placed (suc zero) ne h = refl
procs-placed (suc (suc i)) ne h = absurd (ground (arith, h))

procs-live : (i : ℕ) → is_state (procs i).state zombie ≡ false
procs-live zero = refl
procs-live (suc zero) = refl
procs-live (suc (suc i)) = refl

table-IsFamily : IsFamily table.initproc table.proc
table-IsFamily = record {
  rooted = record {
    root = refl;
    root_in = omega arith;
    root_parent = refl;
    parent_alive = procs-parents;
    apart = procs-apart;
    has_parent = λ i ne h. procs-placed i ne h;
  };
  noticed = λ i j h z. absurd (ground (arith, procs-live i, z));
}

run : Reach table (exit_locked 1 table)
run = later (here table) (exits table 1 refl (λ e. omega (arith, e)))

Reach-IsFamily_example : IsFamily (exit_locked 1 table).initproc (exit_locked 1 table).proc
Reach-IsFamily_example = Reach-IsFamily table (exit_locked 1 table) run table-IsFamily

wait_once-WaitOutcome_example : WaitOutcome 0 table (wait_once 0 table)
wait_once-WaitOutcome_example = wait_once-WaitOutcome 0 table

-- The child exits, and `init`, which has no other, finds it.
reaped_pid :
    wait_once 0 (exit_locked 1 table)
    ≡ waited_for 2 (record (exit_locked 1 table) {
      proc = update (exit_locked 1 table).proc 1 (reap ((exit_locked 1 table).proc 1));
    })
unfolding wait_once exit_locked scan_from pass_from pass_child wakeup1 wakeup_from ℕ_discrete
reaped_pid = refl
