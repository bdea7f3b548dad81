-- ===== src/Log/Crash.antt =====
-- A commit that loses power after any number of disk writes is all or nothing after recovery.
use graduation_prj.Base.{
  lt→ltb, ℕ, ◌+◌, ◌-◌, ◌≤◌, ◌<◌, ◌≡◌, ◌⊎◌, inl, inr, false, if◌then◌else◌, arith, ap, ◌∙◌,
  Bool-cases, dec_le,
}
use mathlib.Core.Path.{subst}
use graduation_prj.Log.Defs.{
  Block, Log, Device, bread, write_log, write_log_from, write_head, install_trans, install_from,
  commit, restart, initlog,
}
use graduation_prj.Log.Phases.{
  write_log_from-other, write_log_from-left, write_log_from-at, bread-write_log_from,
  bread-bwrite_other, bwrite-left, bwrite-lost,
}
use graduation_prj.Log.Install.{
  logged_from, logged_from-true, logged_from-false, install_from-other, install_from-new,
  install_from-left, install_from-lost,
}
use graduation_prj.Log.Recovery.{
  Recorded, write_head-Recorded, write_head-other, initlog-empty, initlog-Recorded,
}

-- The blocks outside the log: its header's block and `n` more.
abbrev pub Home : Log → ℕ → Type 0
Home l x = (x < l.start) ⊎ (l.start + l.n < x)

-- What commit is to make of the disk: a block that the header names is what its buffer holds.
abbrev pub committed : Log → Device → ℕ → Block
committed l d x = if logged_from l.n 0 l.block x then bread x d else d.disk x

-- A log to commit: it names home blocks, and the disk has no transaction that awaits recovery.
pub record Ready (l : Log) (d : Device) : Type 0 where
  pub apart : (i : ℕ) → i < l.n → Home l (l.block i)
  pub idle : d.disk l.start 0 ≡ 0

-- The two outcomes, for all home blocks at once.
abbrev pub AllOrNothing : Log → Device → (ℕ → Block) → Type 0
AllOrNothing l d disk =
    ((x : ℕ) → Home l x → disk x ≡ d.disk x) ⊎ ((x : ℕ) → Home l x → disk x ≡ committed l d x)

write_head-lost : (l : Log) (d : Device) → d.writes_left ≡ 0 → write_head l d ≡ d
unfolding write_head
write_head-lost l d e = bwrite-lost l.start _ d e

module _ (l : Log) (d : Device) (ready : Ready l d) where
  open ready use {apart, idle}

  after_log : Device
  after_log = write_log l d

  after_log-Home : (x : ℕ) → Home l x → after_log.disk x ≡ d.disk x
  unfolding after_log write_log
  after_log-Home x home = write_log_from-other l.n 0 l d x (ground arith)

  after_log-start : after_log.disk l.start ≡ d.disk l.start
  unfolding after_log write_log
  after_log-start = write_log_from-other l.n 0 l d l.start (inl (omega arith))

  after_log-left : after_log.writes_left ≡ d.writes_left - l.n
  unfolding after_log write_log
  after_log-left = write_log_from-left l.n 0 l d

  after_head : Device
  after_head = write_head l after_log

  after_head-left : after_head.writes_left ≡ d.writes_left - l.n - 1
  unfolding after_head write_head
  after_head-left = omega (arith, after_log-left, bwrite-left l.start _ after_log)

  after_head-Home : (x : ℕ) → Home l x → after_head.disk x ≡ d.disk x
  unfolding after_head
  after_head-Home x home = write_head-other l after_log x (ground arith) ∙ after_log-Home x home

  -- With power for the log, its blocks hold the new contents, on disk and in their buffers.
  after_head-content :
      l.n ≤ d.writes_left
      → (i : ℕ) → i < l.n
      → after_head.disk (l.start + i + 1) ≡ bread (l.block i) d
  unfolding after_head after_log write_log
  after_head-content power i lt =
      write_head-other l (write_log_from l.n 0 l d) (l.start + i + 1) (omega arith)
      ∙ write_log_from-at l.n 0 l d power (λ j below. ground (arith, apart j)) i (omega arith)
          (omega arith)

  after_head-buffers :
      l.n ≤ d.writes_left
      → (i : ℕ) → i < l.n
      → bread (l.start + i + 1) after_head ≡ bread (l.block i) d
  unfolding after_head after_log write_log write_head
  after_head-buffers power i lt =
      bread-bwrite_other l.start _ (write_log_from l.n 0 l d) (l.start + i + 1) (omega arith)
      ∙ bread-write_log_from l.n 0 l d power (λ j below. ground (arith, apart j)) i (omega arith)
          (omega arith)

  after_install : Device
  after_install = install_trans l after_head

  after_install-left : after_install.writes_left ≡ d.writes_left - l.n - 1 - l.n
  unfolding after_install install_trans
  after_install-left = omega (arith, after_head-left, install_from-left l.n 0 l after_head)

  after_install-log :
      (x : ℕ) → l.start ≤ x → x ≤ l.start + l.n → after_install.disk x ≡ after_head.disk x
  unfolding after_install install_trans
  after_install-log x from to =
      install_from-other l.n 0 l after_head x (λ i _ lt e. ground (arith, apart i))

  after_all : Device
  after_all = write_head (record l { n = 0 }) after_install

  -- What the machine finds when it has started again.
  recovered : ℕ → ℕ → Block
  recovered w = (initlog l.start l.size (restart w after_all)).1.disk

  head_lost : d.writes_left ≤ l.n → after_head ≡ after_log
  unfolding after_head
  head_lost early = write_head-lost l after_log (omega (arith, after_log-left))

  install_lost : d.writes_left ≤ l.n → after_install ≡ after_head
  unfolding after_install install_trans
  install_lost early = install_from-lost l.n 0 l after_head (omega (arith, after_head-left))

  clear_lost : d.writes_left ≤ l.n + l.n + 1 → after_all ≡ after_install
  unfolding after_all
  clear_lost late =
      write_head-lost (record l { n = 0 }) after_install (omega (arith, after_install-left))

  -- Power failed before the header was written.
  before_header : (w : ℕ) → d.writes_left ≤ l.n → (x : ℕ) → Home l x → recovered w x ≡ d.disk x
  unfolding recovered
  before_header w early x home =
      let lost : after_all ≡ after_log =
        clear_lost (omega arith) ∙ install_lost early ∙ head_lost early in
      let header : after_all.disk l.start 0 ≡ 0 =
        ap (λ (e : Device). e.disk l.start 0) lost
        ∙ ap (λ (b : Block). b 0) after_log-start
        ∙ idle in
      initlog-empty l.start l.size w after_all header x (ground arith)
      ∙ ap (λ (e : Device). e.disk x) lost
      ∙ after_log-Home x home

  after_install-unlogged :
      (x : ℕ) → Home l x → logged_from l.n 0 l.block x ≡ false → after_install.disk x ≡ d.disk x
  unfolding after_install install_trans
  after_install-unlogged x home none =
      install_from-other l.n 0 l after_head x (logged_from-false l.n 0 l.block x none)
      ∙ after_head-Home x home

  Recorded-after_install : l.n + 1 ≤ d.writes_left → Recorded l after_install.disk
  unfolding after_head
  Recorded-after_install power =
      let r : Recorded l after_head.disk =
        write_head-Recorded l after_log (omega (arith, after_log-left)) in
      let same : after_install.disk l.start ≡ after_head.disk l.start =
        after_install-log l.start (omega arith) (omega arith) in
      record {
        count = ap (λ (b : Block). b 0) same ∙ r.count;
        blocks = λ i lt. ap (λ (b : Block). b (i + 1)) same ∙ r.blocks i lt;
      }

  -- Power failed after the header was written and before it was cleared.
  before_clear :
      (w : ℕ)
      → l.n ≤ w
      → l.n + 1 ≤ d.writes_left
      → d.writes_left ≤ l.n + l.n + 1
      → (x : ℕ) → Home l x
      → recovered w x ≡ committed l d x
  unfolding recovered
  before_clear w power early late x home =
      let lost : after_all ≡ after_install = clear_lost late in
      let content : (i : ℕ) → i < l.n → after_install.disk (l.start + i + 1) ≡ bread (l.block i) d =
        λ i lt.
          after_install-log (l.start + i + 1) (omega arith) (omega arith)
          ∙ after_head-content (omega arith) i lt in
      ap (λ e. (initlog l.start l.size (restart w e)).1.disk x) lost
      ∙ initlog-Recorded l w after_install (λ b. bread b d) power
          (Recorded-after_install (omega arith)) apart content x home
      ∙ elim (Bool-cases (logged_from l.n 0 l.block x)) [
        | inl named ↦ rw named
        | inr other ↦ rw other (after_install-unlogged x home other)
      ]

  -- The installation, with power for all of it.
  after_install-committed :
      l.n + l.n + 1 ≤ d.writes_left → (x : ℕ) → Home l x → after_install.disk x ≡ committed l d x
  unfolding after_install install_trans
  after_install-committed power x home = elim (Bool-cases (logged_from l.n 0 l.block x)) [
    | inl named ↦
        let (j, from, to, e) = logged_from-true l.n 0 l.block x named in
        rw named (
          subst (λ y. (install_from l.n 0 l after_head).disk y ≡ bread y d) e
            (install_from-new l l.n (λ b. bread b d) l.n 0 after_head (omega arith) apart
              (after_head-buffers (omega arith)) (omega (arith, after_head-left)) j from to))
    | inr other ↦ rw other (after_install-unlogged x home other)
  ]

  after_all-Home : (x : ℕ) → Home l x → after_all.disk x ≡ after_install.disk x
  unfolding after_all
  after_all-Home x home = write_head-other (record l { n = 0 }) after_install x (ground arith)

  after_all-cleared : l.n + l.n + 2 ≤ d.writes_left → after_all.disk l.start 0 ≡ 0
  unfolding after_all
  after_all-cleared power =
      (write_head-Recorded (record l { n = 0 }) after_install
        (omega (arith, after_install-left))).count

  -- Everything was written.
  after_clear :
      (w : ℕ) → l.n + l.n + 2 ≤ d.writes_left → (x : ℕ) → Home l x → recovered w x ≡ committed l d x
  unfolding recovered
  after_clear w power x home =
      initlog-empty l.start l.size w after_all (after_all-cleared power) x (ground arith)
      ∙ after_all-Home x home
      ∙ after_install-committed (omega arith) x home

  commit-eq : 1 ≤ l.n → (commit l d).1 ≡ after_all
  unfolding commit after_all after_install after_head after_log
  commit-eq some_blocks = rw (lt→ltb 0 l.n some_blocks)

  -- Whenever the power fails during `commit`, recovery leaves either no home block changed, or every
  -- home block as the transaction makes it. The recovery itself has power for at least one write for
  -- each logged block, and the transaction names at least one.
  pub commit-AllOrNothing :
      (w : ℕ)
      → 1 ≤ l.n
      → l.n ≤ w
      → AllOrNothing l d (initlog l.start l.size (restart w (commit l d).1)).1.disk
  unfolding recovered
  commit-AllOrNothing w some_blocks power =
      rw (commit-eq some_blocks) (elim (dec_le d.writes_left l.n) [
        | yes early ↦ inl (before_header w early)
        | no later ↦ elim (dec_le d.writes_left (l.n + l.n + 1)) [
          | yes late ↦ inr (before_clear w power (omega arith) late)
          | no done ↦ inr (after_clear w (omega arith))
        ]
      ])

  -- With power for all of its writes a commit puts every block that it names home, changes no other
  -- home block, and clears the header on disk and in memory.
  pub commit-committed :
      1 ≤ l.n
      → l.n + l.n + 2 ≤ d.writes_left
      → ((x : ℕ) → Home l x → (commit l d).1.disk x ≡ committed l d x)
        × ((commit l d).1.disk l.start 0 ≡ 0)
        × ((commit l d).0.n ≡ 0)
  commit-committed some_blocks power = (
    λ x home.
        rw (commit-eq some_blocks)
          (after_all-Home x home ∙ after_install-committed (omega arith) x home),
    rw (commit-eq some_blocks) (after_all-cleared power),
    unfold commit in ground arith,
  )
