-- ===== src/Log/Tests.antt =====
-- The log on a concrete device: witnesses of the theorems and runs of the code.
use graduation_prj.Base.{
  ℕ, ◌≡◌, refl, none, some, true, Bool, [], ◌∷◌, update, arith, ℕ_discrete, inr, ok,
}
use graduation_prj.Log.Defs.{
  Log, Device, bread, bwrite, write_log, write_log_from, write_head, put_blocks, get_blocks,
  read_head, install_trans, install_from, commit, restart, initlog, recover_from_log, booted,
}
use graduation_prj.Log.Crash.{
  Home, Ready, AllOrNothing, committed, commit-AllOrNothing, commit-committed,
}
use graduation_prj.Log.Ops.{begin_op, System, Reach, here, later, begin, end_op}
use graduation_prj.Log.Reserve.{IsReserved, WriteEnds, Reach-log_write-ok, Reach-end_op-ok}

-- A log at block 2 that names the blocks 40 and 41.
abbrev log : Log
log = record {
  start = 2;
  size = 30;
  outstanding = 0;
  committing = true;
  n = 2;
  block = update (update (λ _. 0) 0 40) 1 41;
}

-- Both blocks are modified in their buffers, and power fails after four more writes.
abbrev device : Device
device = record {
  disk = λ b w. 0;
  cache = update (update (λ _. none) 40 (some (λ w. 7))) 41 (some (λ w. 8));
  writes_left = 4;
}

abbrev powered : Device
powered = record device { writes_left = 10 }

ready : (writes : ℕ) → Ready log (record device { writes_left = writes })
unfolding ℕ_discrete
ready writes = record { apart = λ i lt. inr (ground arith); idle = refl }

commit-AllOrNothing_example :
    AllOrNothing log device (initlog 2 30 (restart 2 (commit log device).1)).1.disk
commit-AllOrNothing_example = commit-AllOrNothing log device (ready 4) 2 (omega arith) (omega arith)

commit-committed_example :
    ((x : ℕ) → Home log x → (commit log powered).1.disk x ≡ committed log powered x)
    × ((commit log powered).1.disk 2 0 ≡ 0)
    × ((commit log powered).0.n ≡ 0)
commit-committed_example = commit-committed log powered (ready 10) (omega arith) (omega arith)

-- After four writes the first block is home; recovery brings the second.
recovery_test :
    ((commit log device).1.disk 41 0 ≡ 0)
    × ((initlog 2 30 (restart 3 (commit log device).1)).1.disk 41 0 ≡ 8)
unfolding commit initlog recover_from_log read_head write_log write_log_from write_head put_blocks
    get_blocks install_trans install_from bread bwrite restart ℕ_discrete
recovery_test = (refl, refl)

abbrev fresh : System
fresh = record { log = booted 2 31; device = device; calls = [] }

fresh-IsReserved : IsReserved fresh
fresh-IsReserved = record {
  counted = refl;
  each = tt;
  fits = omega arith;
  quiet = λ c. refl;
  room = omega arith;
}

abbrev one_call : System
one_call = record fresh { log = record (booted 2 31) { outstanding = 1 }; calls = 10 ∷ [] }

one_call_reached : Reach fresh one_call
unfolding begin_op
one_call_reached = later here (begin refl)

Reach-log_write-ok_example : WriteEnds one_call 40 (λ _. 7)
Reach-log_write-ok_example =
    Reach-log_write-ok [] [] 9 40 (λ _. 7) fresh-IsReserved one_call_reached refl

Reach-end_op-ok_example : (l : Log) × (c : Bool) × (end_op one_call.log ≡ ok (l, c))
Reach-end_op-ok_example = Reach-end_op-ok [] [] 10 fresh-IsReserved one_call_reached refl
