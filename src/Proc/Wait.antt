-- ===== src/Proc/Wait.antt =====
-- One round of `wait`, on every branch.
use graduation_prj.Base.{
  ◌≢◌, ap, none, some, update_same, update_other, ℕ, ◌<◌, ◌≡◌, ◌⊎◌, inl, inr, refl, sym, true,
  false, ◌||◌, update, arith, Bool-cases, if◌then◌else◌,
}
use mathlib.Core.Path.{subst}
use graduation_prj.Proc.Defs.{
  unused, sleeping, zombie, Proc, Table, nproc, is_state, is_some, reap, scan_from, Scan, reaps,
  havekids, wait_once, Waited, waited_for, no_child, wait_sleeps, sleep_on,
}
use graduation_prj.Proc.Scan.{Scanned, scan_from-Scanned}

-- No child of `cur` in the table is a zombie.
abbrev pub AllLive : ℕ → (ℕ → Proc) → Type 0
AllLive cur proc =
    (k : ℕ)
    → k < nproc
    → is_some (proc k).parent cur ≡ true
    → is_state (proc k).state zombie ≡ false

-- An entry that may be allocated again, with no stack, no pid and no parent.
abbrev pub IsFreed : Proc → Type 0
IsFreed p =
    (p.state ≡ unused) × (p.pid ≡ 0) × (p.parent ≡ none) × (p.killed ≡ false) × (p.kstack ≡ none)

IsFreed-update : (proc : ℕ → Proc) (k : ℕ) → IsFreed (update proc k (reap (proc k)) k)
IsFreed-update proc k =
    subst IsFreed (sym (update_same proc k (reap (proc k)))) (refl, refl, refl, refl, refl)

others_same : (proc : ℕ → Proc) (k : ℕ) (p : Proc) (j : ℕ) → j ≢ k → update proc k p j ≡ proc j
others_same proc k p j ne = update_other proc k j p (λ e. ne (sym e))

sleeps : (cur : ℕ) (t : Table) → ((sleep_on cur cur t).proc cur).state ≡ sleeping
unfolding sleep_on
sleeps cur t = ap (λ p. p.state) (update_same t.proc cur _)

sleeps_on : (cur : ℕ) (t : Table) → ((sleep_on cur cur t).proc cur).chan ≡ some cur
unfolding sleep_on
sleeps_on cur t = ap (λ p. p.chan) (update_same t.proc cur _)

sleep_on-others : (cur : ℕ) (t : Table) (j : ℕ) → j ≢ cur → (sleep_on cur cur t).proc j ≡ t.proc j
unfolding sleep_on
sleep_on-others cur t j ne = others_same t.proc cur _ j ne

abbrev pub WaitOutcome : ℕ → Table → Waited → Type 0
WaitOutcome cur t (waited_for pid after) =
    (k : ℕ) × (k < nproc)
    × (is_some (t.proc k).parent cur ≡ true)
    × (is_state (t.proc k).state zombie ≡ true)
    × (pid ≡ (t.proc k).pid)
    × (after ≡ record t { proc = update t.proc k (reap (t.proc k)) })
    × IsFreed (after.proc k)
    × ((j : ℕ) → j ≢ k → after.proc j ≡ t.proc j)
WaitOutcome cur t no_child =
    AllLive cur t.proc
    × (((k : ℕ) → k < nproc → is_some (t.proc k).parent cur ≡ false) ⊎ ((t.proc cur).killed ≡ true))
WaitOutcome cur t (wait_sleeps after) =
    AllLive cur t.proc
    × ((k : ℕ) × (is_some (t.proc k).parent cur ≡ true))
    × ((t.proc cur).killed ≡ false)
    × (after ≡ sleep_on cur cur t)
    × ((after.proc cur).state ≡ sleeping)
    × ((after.proc cur).chan ≡ some cur)
    × ((j : ℕ) → j ≢ cur → after.proc j ≡ t.proc j)

-- `wait_once` once its scan is known.
abbrev wait_after : ℕ → Table → Scan → Waited
wait_after cur t (reaps i) =
    waited_for (t.proc i).pid (record t { proc = update t.proc i (reap (t.proc i)) })
wait_after cur t (havekids kids) =
    if (if kids then false else true) || (t.proc cur).killed
    then no_child
    else wait_sleeps (sleep_on cur cur t)

wait_once-after :
    (cur : ℕ) (t : Table) → wait_once cur t ≡ wait_after cur t (scan_from nproc 0 cur false t.proc)
unfolding wait_once
wait_once-after cur t = go (scan_from nproc 0 cur false t.proc)
  where
    go :
        (s : Scan)
        → elim s [
          | reaps i ↦
              waited_for (t.proc i).pid (record t { proc = update t.proc i (reap (t.proc i)) })
          | havekids kids ↦
              if (if kids then false else true) || (t.proc cur).killed
              then no_child
              else wait_sleeps (sleep_on cur cur t)
        ]
          ≡ wait_after cur t s
    go (reaps i) = refl
    go (havekids kids) = refl

childless :
    (cur : ℕ) (proc : ℕ → Proc)
    → Scanned nproc 0 cur false proc (havekids false)
    → (k : ℕ) → k < nproc
    → is_some (proc k).parent cur ≡ false
childless cur proc s k lt = elim (Bool-cases (is_some (proc k).parent cur)) [
  | inr h ↦ h
  | inl h ↦ absurd (ground (arith, (s.0 k (omega arith) lt h).1))
]

wait_after-WaitOutcome :
    (cur : ℕ) (t : Table) (s : Scan)
    → Scanned nproc 0 cur false t.proc s
    → WaitOutcome cur t (wait_after cur t s)
wait_after-WaitOutcome cur t (reaps k) s =
    (k, s.1, s.2, s.3, refl, refl, IsFreed-update t.proc k, others_same t.proc k (reap (t.proc k)))
wait_after-WaitOutcome cur t (havekids false) s =
    (λ k lt h. (s.0 k (omega arith) lt h).0, inl (childless cur t.proc s))
wait_after-WaitOutcome cur t (havekids true) s = elim (Bool-cases (t.proc cur).killed) [
  | inl h ↦ rw h (λ k lt c. (s.0 k (omega arith) lt c).0, inr h)
  | inr h ↦ rw h (
    λ k lt c. (s.0 k (omega arith) lt c).0,
    elim (s.2 refl) [ inl e ↦ absurd (ground (arith, e)) | inr c ↦ c ],
    h,
    refl,
    sleeps cur t,
    sleeps_on cur t,
    sleep_on-others cur t,
  )
]

-- One round of `wait` has three ends. It returns the `pid` of a child in the table that is a zombie; the
-- child's entry is then unused, without a stack, a pid or a parent and not killed, and no other entry
-- has changed. It returns -1 only if no child is a zombie, and there is none or the process is
-- killed. It goes to sleep on the process's own address, with no other entry changed, only if there
-- is a child, none is a zombie, and the process is not killed.
pub wait_once-WaitOutcome : (cur : ℕ) (t : Table) → WaitOutcome cur t (wait_once cur t)
wait_once-WaitOutcome cur t = subst (WaitOutcome cur t) (sym (wait_once-after cur t)) (
    wait_after-WaitOutcome cur t (scan_from nproc 0 cur false t.proc)
      (scan_from-Scanned nproc 0 cur false t.proc))
