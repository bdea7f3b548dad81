-- ===== src/File/Truncate.antt =====
-- fs.c: itrunc gives back every block of a file.
use graduation_prj.Base.{
  ℕ, zero, suc, ◌+◌, ◌*◌, ◌≤◌, ◌<◌, ◌≡◌, ◌≢◌, ◌⊎◌, inl, inr, refl, sym, ap, ◌∙◌, update,
  update_same, update_other, arith, ℕ_discrete, Bool-cases, dec_lt, ◌==◌, ==→eq, ==→ne, ok, ◌>>=◌,
  Succeeds, bind-Succeeds,
}
use mathlib.Core.Path.{subst}
use graduation_prj.Bitmap.Defs.{Disk, Superblock, bfree}
use graduation_prj.Bitmap.Bits.{mark}
use graduation_prj.File.Words.{get_word}
use graduation_prj.File.Defs.{
  Inode, iblock, iupdate, free_direct, free_entries, free_indirect, itrunc,
}
use graduation_prj.File.Room.{Apart}
use graduation_prj.File.Slots.{slot, IsMapped, write-marks}
use graduation_prj.File.Freeing.{Freed, Next, Freed-skip, Freed-same, bfree-Freed}

nth_entry :
    (addrs : ℕ → ℕ) (disk : Disk) (n : ℕ)
    → n < 128
    → addrs 12 ≢ 0
    → slot addrs disk (13 + n) ≡ get_word (disk (addrs 12)) (4 * n)
nth_entry addrs disk n lt ne = ground arith

-- The first `i` direct blocks of the inode are gone.
pub record Cleared (i : ℕ) (before ip : Inode) : Type 0 where
  pub low : (k : ℕ) → k < i → ip.addrs k ≡ 0
  pub high : (k : ℕ) → i ≤ k → ip.addrs k ≡ before.addrs k
  pub inum : ip.inum ≡ before.inum

Cleared-step :
    (i : ℕ) (before ip : Inode)
    → Cleared i before ip
    → Cleared (i + 1) before (record ip { addrs = update ip.addrs i 0 })
Cleared-step i before ip c = record {
  low = λ k lt. elim (ℕ_discrete i k) [
    | yes e ↦ ap (update ip.addrs i 0) (sym e) ∙ update_same ip.addrs i 0
    | no ne ↦ update_other ip.addrs i k 0 ne ∙ c.low k (omega (arith, lt, ne))
  ];
  high = λ k le.
      update_other ip.addrs i k 0 (λ e. omega (arith, e, le)) ∙ c.high k (omega (arith, le));
  inum = c.inum;
}

Cleared-skip :
    (i : ℕ) (before ip : Inode) → ip.addrs i ≡ 0 → Cleared i before ip → Cleared (i + 1) before ip
Cleared-skip i before ip e c = record {
  low = λ k lt. elim (ℕ_discrete k i) [
    | yes same ↦ ap ip.addrs same ∙ e
    | no ne ↦ c.low k (omega (arith, lt, ne))
  ];
  high = λ k le. c.high k (omega (arith, le));
  inum = c.inum;
}

module _ (sb : Superblock) (disk : Disk) (before : Inode)
    (mapped : IsMapped sb disk (slot before.addrs disk)) where
  abbrev s : ℕ → ℕ
  s = slot before.addrs disk

  abbrev Direct : ℕ → Inode × Disk → Type 0
  Direct i (ip, after) = Cleared i before ip × Freed sb disk s (λ j. j < i) after

  step_set :
      (i : ℕ) (after : Disk)
      → Freed sb disk s (Next (λ j. j < i) i) after
      → Freed sb disk s (λ j. j < i + 1) after
  step_set i after =
      Freed-same sb disk s mapped (Next (λ j. j < i) i) (λ j. j < i + 1) after
        (λ j d. ground (arith, d)) (λ j d. ground (arith, d))

  free_direct-Direct :
      (rounds i : ℕ) (ip : Inode) (after : Disk)
      → i + rounds ≡ 12
      → Direct i (ip, after)
      → Succeeds (Direct 12) (free_direct sb rounds i ip after)
  unfolding free_direct
  free_direct-Direct zero i ip after e d = subst (λ k. Direct k (ip, after)) (omega (arith, e)) d
  free_direct-Direct (suc rounds) i ip after e (c, f) =
      let here : ip.addrs i ≡ s i = c.high i (omega arith) ∙ ground (arith, e) in
      elim (Bool-cases (ip.addrs i == 0)) [
        | inl none ↦
            let gone : ip.addrs i ≡ 0 = ==→eq (ip.addrs i) 0 none in
            rw none (
              free_direct-Direct rounds (i + 1) ip after (omega (arith, e)) (
                Cleared-skip i before ip gone c,
                step_set i after
                    (Freed-skip sb disk s mapped (λ j. j < i) i after (sym here ∙ gone) f),
              ))
        | inr set ↦ rw set (
            bind-Succeeds (Freed sb disk s (Next (λ j. j < i) i)) (Direct 12)
              (bfree (ip.addrs i) sb after)
              (λ next.
                free_direct sb rounds (i + 1) (record ip { addrs = update ip.addrs i 0 }) next)
              (subst (λ b. Succeeds (Freed sb disk s (Next (λ j. j < i) i)) (bfree b sb after))
                (sym here)
                (bfree-Freed sb disk s mapped (λ j. j < i) i after (λ lt. omega (arith, lt))
                  (λ z. ==→ne (ip.addrs i) 0 set (here ∙ z)) f))
              (λ next g.
                free_direct-Direct rounds (i + 1) (record ip { addrs = update ip.addrs i 0 }) next
                  (omega (arith, e)) (Cleared-step i before ip c, step_set i next g)))
      ]

  -- The direct slots and the first `n` entries.
  abbrev Entries : ℕ → ℕ → Type 0
  Entries n i = (i < 12) ⊎ ((13 ≤ i) × (i < 13 + n))

  entry_set :
      (n : ℕ) (after : Disk)
      → Freed sb disk s (Next (Entries n) (13 + n)) after
      → Freed sb disk s (Entries (n + 1)) after
  entry_set n after =
      Freed-same sb disk s mapped (Next (Entries n) (13 + n)) (Entries (n + 1)) after
        (λ j d. ground (arith, d)) (λ j d. ground (arith, d))

  free_entries-Entries :
      (rounds n : ℕ) (after : Disk)
      → n + rounds ≡ 128
      → before.addrs 12 ≢ 0
      → Freed sb disk s (Entries n) after
      → Succeeds (Freed sb disk s (Entries 128)) (free_entries sb rounds n (before.addrs 12) after)
  unfolding free_entries
  free_entries-Entries zero n after e ne f =
      let all : n ≡ 128 = omega (arith, e) in subst (λ k. Freed sb disk s (Entries k) after) all f
  free_entries-Entries (suc rounds) n after e ne f =
      let here : get_word (after (before.addrs 12)) (4 * n) ≡ s (13 + n) =
        ap (λ bytes. get_word bytes (4 * n)) (f.blocks (before.addrs 12) (mapped.apart 12 ne))
        ∙ sym (nth_entry before.addrs disk n (omega (arith, e)) ne) in
      elim (Bool-cases (get_word (after (before.addrs 12)) (4 * n) == 0)) [
        | inl none ↦ rw none (
            free_entries-Entries rounds (n + 1) after (omega (arith, e)) ne (
              entry_set n after (
                Freed-skip sb disk s mapped (Entries n) (13 + n) after (sym here ∙ ==→eq _ 0 none)
                  f)))
        | inr set ↦ rw set (
            bind-Succeeds (Freed sb disk s (Next (Entries n) (13 + n)))
              (Freed sb disk s (Entries 128))
              (bfree (get_word (after (before.addrs 12)) (4 * n)) sb after)
              (λ next. free_entries sb rounds (n + 1) (before.addrs 12) next)
              (subst
                (λ b. Succeeds (Freed sb disk s (Next (Entries n) (13 + n))) (bfree b sb after))
                (sym here)
                (bfree-Freed sb disk s mapped (Entries n) (13 + n) after (λ d. ground (arith, d))
                  (λ z. ==→ne _ 0 set (here ∙ z)) f))
              (λ next g.
                free_entries-Entries rounds (n + 1) next (omega (arith, e)) ne
                  (entry_set n next g)))
      ]

  -- An inode without an indirect block has no more slots.
  no_entries :
      (after : Disk)
      → before.addrs 12 ≡ 0
      → Freed sb disk s (λ j. j < 12) after
      → Freed sb disk s (λ j. j < 141) after
  no_entries after none f =
      let empty : (i : ℕ) → 12 ≤ i → s i ≡ 0 = λ i le. ground (arith, none, le) in
      record {
        gone = λ i lt ne. elim (dec_lt i 12) [
          | yes d ↦ f.gone i d ne
          | no past ↦ absurd (ne (empty i (omega (arith, past))))
        ];
        kept = λ c lt h. f.kept c lt (λ i d. h i (omega (arith, d)));
        blocks = f.blocks;
      }

  abbrev Whole : Inode × Disk → Type 0
  Whole (ip, after) = Cleared 13 before ip × Freed sb disk s (λ j. j < 141) after

  free_indirect-Whole :
      (ip : Inode) (after : Disk)
      → Direct 12 (ip, after)
      → Succeeds Whole (free_indirect sb ip after)
  unfolding free_indirect
  free_indirect-Whole ip after (c, f) =
      let here : ip.addrs 12 ≡ before.addrs 12 = c.high 12 (omega arith) in
      elim (Bool-cases (ip.addrs 12 == 0)) [
        | inl none ↦
            let gone : ip.addrs 12 ≡ 0 = ==→eq (ip.addrs 12) 0 none in
            rw none (Cleared-skip 12 before ip gone c, no_entries after (sym here ∙ gone) f)
        | inr set ↦
            let ne : before.addrs 12 ≢ 0 = λ z. ==→ne (ip.addrs 12) 0 set (here ∙ z) in
            let start : Freed sb disk s (Entries 0) after =
              Freed-same sb disk s mapped (λ j. j < 12) (Entries 0) after (λ j d. inl d)
                (λ j d. ground (arith, d)) f in
            rw set (
              rw here (
                bind-Succeeds (Freed sb disk s (Entries 128)) Whole
                  (free_entries sb 128 0 (before.addrs 12) after)
                  (λ d. bfree (before.addrs 12) sb d >>= λ d'.
                    ok (record ip { addrs = update ip.addrs 12 0 }, d'))
                  (free_entries-Entries 128 0 after (omega arith) ne start)
                  (λ d g.
                    bind-Succeeds (Freed sb disk s (Next (Entries 128) 12)) Whole
                      (bfree (before.addrs 12) sb d)
                      (λ d'. ok (record ip { addrs = update ip.addrs 12 0 }, d'))
                      (bfree-Freed sb disk s mapped (Entries 128) 12 d (λ i. ground (arith, i)) ne
                        g)
                      (λ d' h. (
                        Cleared-step 12 before ip c,
                        Freed-same sb disk s mapped (Next (Entries 128) 12) (λ j. j < 141) d'
                            (λ j i. ground (arith, i)) (λ j i. ground (arith, i)) h,
                      )))))
      ]

-- The inode has no blocks and no bytes; each block of the file is free, and every other block is marked
-- as before.
pub record Truncated (sb : Superblock) (disk : Disk) (before ip : Inode) (after : Disk)
    : Type 0 where
  pub cleared : Cleared 13 before ip
  pub empty : ip.size ≡ 0
  pub gone : (i : ℕ) → slot before.addrs disk i ≢ 0 → mark sb after (slot before.addrs disk i) ≡ 0
  pub kept :
      (c : ℕ)
      → c < sb.size
      → ((i : ℕ) → slot before.addrs disk i ≢ c)
      → mark sb after c ≡ mark sb disk c

below_141 : (addrs : ℕ → ℕ) (disk : Disk) (i : ℕ) → slot addrs disk i ≢ 0 → i < 141
below_141 addrs disk i ne = ground (arith, ne)

start-Cleared : (ip : Inode) → Cleared 0 ip ip
start-Cleared ip = record {
  low = λ k lt. absurd (omega (arith, lt));
  high = λ k le. refl;
  inum = refl;
}

start-Freed : (sb : Superblock) (disk : Disk) (s : ℕ → ℕ) → Freed sb disk s (λ j. j < 0) disk
start-Freed sb disk s = record {
  gone = λ i lt. absurd (omega (arith, lt));
  kept = λ c lt h. refl;
  blocks = λ b away. refl;
}

finish :
    (sb : Superblock) (disk : Disk) (before : Inode)
    (mapped : IsMapped sb disk (slot before.addrs disk)) (ip : Inode) (after : Disk)
    → Apart sb (iblock before.inum sb)
    → Whole sb disk before mapped (ip, after)
    → Truncated sb disk before (record ip { size = 0 }) (iupdate sb (record ip { size = 0 }) after)
unfolding iupdate
finish sb disk before mapped ip after away (c, f) =
    let there : Apart sb (iblock ip.inum sb) =
      subst (λ i. Apart sb (iblock i sb)) (sym c.inum) away in
    let marks : (b : ℕ)
        → b < sb.size
        → mark sb (iupdate sb (record ip { size = 0 }) after) b ≡ mark sb after b =
      write-marks sb after (iblock ip.inum sb) _ there in
    record {
      cleared = record { low = c.low; high = c.high; inum = c.inum };
      empty = refl;
      gone = λ i ne.
          marks (slot before.addrs disk i) (mapped.inside i ne)
          ∙ f.gone i (below_141 before.addrs disk i ne) ne;
      kept = λ b lt h. marks b lt ∙ f.kept b lt (λ i d set. h i);
    }

-- Truncating an inode whose blocks are in use, inside the device, not of the bitmap and all different, and
-- whose own block is not of the bitmap, does not panic: it ends with no block number and size 0, every
-- block that the file had, the indirect one and its entries included, is free, and the mark of every
-- other block is as before.
pub itrunc-Truncated :
    (sb : Superblock) (disk : Disk) (ip : Inode)
    → IsMapped sb disk (slot ip.addrs disk)
    → Apart sb (iblock ip.inum sb)
    → Succeeds (λ (ip', after). Truncated sb disk ip ip' after) (itrunc sb ip disk)
unfolding itrunc
itrunc-Truncated sb disk ip mapped away =
    bind-Succeeds (Direct sb disk ip mapped 12) (λ (ip', after). Truncated sb disk ip ip' after)
      (free_direct sb 12 0 ip disk)
      (λ (ip', d). free_indirect sb ip' d >>= λ (ip'', d').
        ok (record ip'' { size = 0 }, iupdate sb (record ip'' { size = 0 }) d'))
      (free_direct-Direct sb disk ip mapped 12 0 ip disk refl
        (start-Cleared ip, start-Freed sb disk (slot ip.addrs disk)))
      (λ (ip', d) h.
        bind-Succeeds (Whole sb disk ip mapped) (λ (last, after). Truncated sb disk ip last after)
          (free_indirect sb ip' d)
          (λ (ip'', d'). ok (record ip'' { size = 0 }, iupdate sb (record ip'' { size = 0 }) d'))
          (free_indirect-Whole sb disk ip mapped ip' d h)
          (λ (ip'', d') w. finish sb disk ip mapped ip'' d' away w))
