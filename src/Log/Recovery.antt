-- ===== src/Log/Recovery.antt =====
-- `recover_from_log` on a machine that has started again.
use graduation_prj.Base.{
  ℕ, ◌+◌, ◌≤◌, ◌<◌, ◌≡◌, ◌≢◌, ◌⊎◌, inl, inr, if◌then◌else◌, arith, ap, ◌∙◌, sym, Bool-cases, update,
  update_same,
}
use mathlib.Core.Path.{subst}
use graduation_prj.Log.Defs.{
  Block, Log, Device, bread, install_from, install_trans, read_head, write_head, put_blocks,
  recover_from_log, restart, initlog, booted,
}
use graduation_prj.Log.Phases.{
  bwrite-other, bwrite_self, get_blocks-at, put_blocks-below, put_blocks-at,
}
use graduation_prj.Log.Install.{
  logged_from, logged_from-true, logged_from-false, install_from-other, install_from-new,
}

-- The header on disk is that of `l`.
pub record Recorded (l : Log) (disk : ℕ → Block) : Type 0 where
  pub count : disk l.start 0 ≡ l.n
  pub blocks : (i : ℕ) → i < l.n → disk l.start (i + 1) ≡ l.block i

-- `write_head` with power to do it.
pub write_head-Recorded :
    (l : Log) (d : Device) → 1 ≤ d.writes_left → Recorded l (write_head l d).disk
unfolding write_head
write_head-Recorded l d power =
    let base : Block = update (bread l.start d) 0 l.n in
    let hb : Block = put_blocks l.n 0 l.block base in
    let written = bwrite_self l.start hb d power in
    record {
      count =
          ap (λ (w : Block). w 0) written
          ∙ put_blocks-below l.n 0 l.block base 0 (omega arith)
          ∙ update_same (bread l.start d) 0 l.n;
      blocks = λ i lt.
          ap (λ (w : Block). w (i + 1)) written
          ∙ put_blocks-at l.n 0 l.block base i (omega arith) (omega arith);
    }

pub write_head-other :
    (l : Log) (d : Device) (x : ℕ) → l.start ≢ x → (write_head l d).disk x ≡ d.disk x
unfolding write_head
write_head-other l d x ne = bwrite-other l.start _ d x ne

initlog-disk :
    (start size : ℕ) (d : Device) (x : ℕ)
    → start ≢ x
    → (initlog start size d).1.disk x
      ≡ (install_from (bread start d 0) 0 (read_head (booted start size) d) d).disk x
unfolding initlog recover_from_log install_trans read_head
initlog-disk start size d x ne =
    let rl : Log = read_head (booted start size) d in
    write_head-other (record rl { n = 0 }) (install_from rl.n 0 rl d) x ne

-- With an empty header nothing but the header's block is touched.
pub initlog-empty :
    (start size w : ℕ) (d : Device)
    → d.disk start 0 ≡ 0
    → (x : ℕ) → start ≢ x
    → (initlog start size (restart w d)).1.disk x ≡ d.disk x
unfolding install_from restart bread
initlog-empty start size w d e x ne =
    let r : Device = restart w d in
    initlog-disk start size r x ne
    ∙ ap (λ k. (install_from k 0 (read_head (booted start size) r) r).disk x) e

-- With a recorded transaction every block that it names is installed.
pub initlog-Recorded :
    (l : Log) (w : ℕ) (d : Device) (new : ℕ → Block)
    → l.n ≤ w
    → Recorded l d.disk
    → ((i : ℕ) → i < l.n → (l.block i < l.start) ⊎ (l.start + l.n < l.block i))
    → ((i : ℕ) → i < l.n → d.disk (l.start + i + 1) ≡ new (l.block i))
    → (x : ℕ) → (x < l.start) ⊎ (l.start + l.n < x)
    → (initlog l.start l.size (restart w d)).1.disk x
      ≡ (if logged_from l.n 0 l.block x then new x else d.disk x)
unfolding restart bread read_head
initlog-Recorded l w d new power r apart content x home =
    let dev : Device = restart w d in
    let rl : Log = read_head (booted l.start l.size) dev in
    let same : (i : ℕ) → i < l.n → rl.block i ≡ l.block i = λ i lt.
      get_blocks-at (d.disk l.start 0) 0 (d.disk l.start) (λ _. 0) i (omega arith)
        (omega (arith, r.count))
      ∙ r.blocks i lt in
    let apart' : (i : ℕ) → i < l.n → (rl.block i < l.start) ⊎ (l.start + l.n < rl.block i) =
      λ i lt. rw (same i lt) (apart i lt) in
    let holds : (i : ℕ) → i < l.n → bread (l.start + i + 1) dev ≡ new (rl.block i) =
      λ i lt. rw (same i lt) (content i lt) in
    initlog-disk l.start l.size dev x (ground arith)
    ∙ ap (λ k. (install_from k 0 rl dev).disk x) r.count
    ∙ elim (Bool-cases (logged_from l.n 0 l.block x)) [
      | inl yes_logged ↦
          let (j, from, to, e) = logged_from-true l.n 0 l.block x yes_logged in
          let e' : rl.block j ≡ x = same j (omega arith) ∙ e in
          rw yes_logged (
            subst (λ y. (install_from l.n 0 rl dev).disk y ≡ new y) e'
              (install_from-new rl l.n new l.n 0 dev (omega arith) apart' holds power j from to))
      | inr not_logged ↦ rw not_logged (
          install_from-other l.n 0 rl dev x (λ i from to e.
            logged_from-false l.n 0 l.block x not_logged i from to
              (sym (same i (omega arith)) ∙ e)))
    ]
