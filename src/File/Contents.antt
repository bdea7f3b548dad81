-- ===== src/File/Contents.antt =====
-- The bytes of a file, and what one round of the loop of writei does to them.
use graduation_prj.Base.{
  ℕ, zero, suc, ◌+◌, ◌-◌, ◌/◌, ◌%◌, ◌≤◌, ◌<◌, ◌≡◌, ◌≢◌, ◌⊎◌, inl, inr, refl, sym, ap, ◌∙◌, update,
  update_same, update_other, arith, ℕ_discrete,
}
use mathlib.Core.Path.{subst}
use graduation_prj.Bitmap.Defs.{Disk, Superblock}
use graduation_prj.Bitmap.Bits.{mark}
use graduation_prj.File.Defs.{Inode, copy_in}
use graduation_prj.File.Room.{Apart, room}
use graduation_prj.File.Slots.{slot, IsMapped, slot-same, write-marks, write-room, write-IsMapped}
use graduation_prj.File.Bmap.{Mapped, index}

-- The byte `p` of a file, where its block is there.
abbrev pub content : (ℕ → ℕ) → Disk → ℕ → ℕ
content addrs disk p = disk (slot addrs disk (index (p / 512))) (p % 512)

abbrev pub Filled : (ℕ → ℕ) → Disk → ℕ → Type 0
Filled addrs disk p = slot addrs disk (index (p / 512)) ≢ 0

pub index_indirect : (bn : ℕ) → index bn ≢ 12
index_indirect bn e = ground (arith, e)

pub index_inj : (bn cn : ℕ) → index bn ≡ index cn → bn ≡ cn
index_inj bn cn e = ground (arith, e)

pub copy_in-outside :
    (m o : ℕ) (src : ℕ → ℕ) (i : ℕ) (bytes : ℕ → ℕ) (q : ℕ)
    → (q < o) ⊎ (o + m ≤ q)
    → copy_in m o src i bytes q ≡ bytes q
unfolding copy_in
copy_in-outside zero o src i bytes q h = refl
copy_in-outside (suc m) o src i bytes q h =
    copy_in-outside m (o + 1) src (i + 1) (update bytes o (src i)) q
      (elim h [ inl a ↦ inl (omega (arith, a)) | inr a ↦ inr (omega (arith, a)) ])
    ∙ update_other bytes o q (src i)
        (elim h [ inl a ↦ λ e. omega (arith, a, e) | inr a ↦ λ e. omega (arith, a, e) ])

pub copy_in-inside :
    (m o : ℕ) (src : ℕ → ℕ) (i : ℕ) (bytes : ℕ → ℕ) (q : ℕ)
    → o ≤ q
    → q < o + m
    → copy_in m o src i bytes q ≡ src (i + (q - o))
unfolding copy_in
copy_in-inside zero o src i bytes q le lt = absurd (omega arith)
copy_in-inside (suc m) o src i bytes q le lt = elim (ℕ_discrete o q) [
  | yes e ↦
      copy_in-outside m (o + 1) src (i + 1) (update bytes o (src i)) q (inl (omega (arith, e)))
      ∙ ap (update bytes o (src i)) (sym e)
      ∙ update_same bytes o (src i)
      ∙ ap src (omega (arith, e))
  | no ne ↦
      copy_in-inside m (o + 1) src (i + 1) (update bytes o (src i)) q (omega (arith, ne))
        (omega arith)
      ∙ ap src (omega (arith, ne))
]

-- A stretch of writing: `left` bytes of `src` from its byte `i` on, to the file from `off` on.
pub record Wrote (sb : Superblock) (src : ℕ → ℕ) (i off left : ℕ) (ip : Inode) (disk : Disk)
    (r : Inode × Disk) : Type 0 where
  pub mapped : IsMapped sb r.1 (slot r.0.addrs r.1)
  pub same : r.0 ≡ record ip { addrs = r.0.addrs }
  pub written : (p : ℕ) → off ≤ p → p < off + left → content r.0.addrs r.1 p ≡ src (i + (p - off))
  pub filled : (p : ℕ) → off ≤ p → p < off + left → Filled r.0.addrs r.1 p
  pub others :
      (p : ℕ)
      → (p < off) ⊎ (off + left ≤ p)
      → Filled ip.addrs disk p
      → content r.0.addrs r.1 p ≡ content ip.addrs disk p
  pub grows : (j : ℕ) → slot ip.addrs disk j ≢ 0 → slot r.0.addrs r.1 j ≡ slot ip.addrs disk j
  pub kept :
      (b : ℕ)
      → b < sb.size
      → mark sb disk b ≡ 1
      → Apart sb b
      → ((j : ℕ) → b ≢ slot ip.addrs disk j)
      → (r.1 b ≡ disk b) × ((j : ℕ) → b ≢ slot r.0.addrs r.1 j)
  pub marks : (c : ℕ) → c < sb.size → mark sb disk c ≡ 1 → mark sb r.1 c ≡ 1

pub Wrote-none :
    (sb : Superblock) (src : ℕ → ℕ) (i off : ℕ) (ip : Inode) (disk : Disk)
    → IsMapped sb disk (slot ip.addrs disk)
    → Wrote sb src i off 0 ip disk (ip, disk)
Wrote-none sb src i off ip disk m = record {
  mapped = m;
  same = refl;
  written = λ p le lt. absurd (omega (arith, le, lt));
  filled = λ p le lt. absurd (omega (arith, le, lt));
  others = λ p h f. refl;
  grows = λ j h. refl;
  kept = λ b lt used apart other. (refl, other);
  marks = λ c lt h. h;
}

-- One round: bmap has returned `a`, and `m` bytes go to one block.
module _ (sb : Superblock) (src : ℕ → ℕ) (i off m : ℕ) (ip : Inode) (disk : Disk) (a : ℕ)
    (ip' : Inode) (disk' : Disk) (before : IsMapped sb disk (slot ip.addrs disk))
    (b : Mapped 2 sb (index (off / 512)) ip disk (a, ip', disk')) (fits : off % 512 + m ≤ 512) where
  abbrev pub next : Disk
  next = update disk' a (copy_in m (off % 512) src i (disk' a))

  away : Apart sb a
  away =
      subst (Apart sb) b.here (b.mapped.apart (index (off / 512)) (λ z. b.nonzero (sym b.here ∙ z)))

  not_indirect : a ≢ slot ip'.addrs disk' 12
  not_indirect e =
      index_indirect (off / 512)
        (b.mapped.distinct (index (off / 512)) 12 (λ z. b.nonzero (sym b.here ∙ z)) (b.here ∙ e))

  pub next-slot : slot ip'.addrs next ≡ slot ip'.addrs disk'
  next-slot = slot-same ip'.addrs disk' next (λ _.
      update_other disk' a (ip'.addrs 12) (copy_in m (off % 512) src i (disk' a)) not_indirect)

  pub next-IsMapped : IsMapped sb next (slot ip'.addrs next)
  next-IsMapped = subst (IsMapped sb next) (sym next-slot) (
      write-IsMapped sb disk' a (copy_in m (off % 512) src i (disk' a)) away (slot ip'.addrs disk')
        b.mapped)

  pub next-room : room sb next ≡ room sb disk'
  next-room = write-room sb disk' a (copy_in m (off % 512) src i (disk' a)) away

  at_block : (p : ℕ) → p / 512 ≡ off / 512 → slot ip'.addrs next (index (p / 512)) ≡ a
  at_block p e =
      ap (λ s. s (index (p / 512))) next-slot ∙ ap (λ n. slot ip'.addrs disk' (index n)) e ∙ b.here

  pub next-written :
      (p : ℕ) → off ≤ p → p < off + m → content ip'.addrs next p ≡ src (i + (p - off))
  next-written p le lt =
      let e : p / 512 ≡ off / 512 = omega arith in
      ap (λ k. next k (p % 512)) (at_block p e)
      ∙ ap (λ bytes. bytes (p % 512)) (update_same disk' a (copy_in m (off % 512) src i (disk' a)))
      ∙ copy_in-inside m (off % 512) src i (disk' a) (p % 512) (omega (arith, e)) (omega (arith, e))
      ∙ ap src (omega (arith, e, le))

  pub next-Filled : (p : ℕ) → off ≤ p → p < off + m → Filled ip'.addrs next p
  next-Filled p le lt z = b.nonzero (sym (at_block p (omega arith)) ∙ z)

  pub next-grows : (j : ℕ) → slot ip.addrs disk j ≢ 0 → slot ip'.addrs next j ≡ slot ip.addrs disk j
  next-grows j h = ap (λ s. s j) next-slot ∙ b.grows j h

  -- A block that was in a slot other than the indirect one.
  old_block :
      (j : ℕ)
      → j ≢ 12
      → slot ip.addrs disk j ≢ 0
      → disk' (slot ip.addrs disk j) ≡ disk (slot ip.addrs disk j)
  old_block j ne h =
      b.kept (slot ip.addrs disk j) (before.inside j h) (before.used j h) (before.apart j h)
        (λ e. ne (b.mapped.distinct j 12 (λ z. h (sym (b.grows j h) ∙ z)) (b.grows j h ∙ e)))

  pub next-others :
      (p : ℕ)
      → (p < off) ⊎ (off + m ≤ p)
      → Filled ip.addrs disk p
      → content ip'.addrs next p ≡ content ip.addrs disk p
  next-others p h f =
      let j = index (p / 512) in
      let grown = next-grows j f in
      let old = ap (λ bytes. bytes (p % 512)) (old_block j (index_indirect (p / 512)) f) in
      ap (λ k. next k (p % 512)) grown ∙ elim (ℕ_discrete a (slot ip.addrs disk j)) [
        | no ne ↦
            ap (λ bytes. bytes (p % 512))
              (update_other disk' a (slot ip.addrs disk j) (copy_in m (off % 512) src i (disk' a))
                ne)
            ∙ old
        | yes e ↦
            let same : p / 512 ≡ off / 512 = index_inj (p / 512) (off / 512) (
              b.mapped.distinct j (index (off / 512)) (λ z. f (sym (b.grows j f) ∙ z))
                (b.grows j f ∙ sym e ∙ sym b.here)) in
            ap (λ k. next k (p % 512)) (sym e)
            ∙ ap (λ bytes. bytes (p % 512))
                (update_same disk' a (copy_in m (off % 512) src i (disk' a)))
            ∙ copy_in-outside m (off % 512) src i (disk' a) (p % 512) (elim h [
              | inl low ↦ inl (omega (arith, low, same))
              | inr high ↦ inr (omega (arith, high, same))
            ])
            ∙ ap (λ k. disk' k (p % 512)) e
            ∙ old
      ]

  pub next-marks : (c : ℕ) → c < sb.size → mark sb disk c ≡ 1 → mark sb next c ≡ 1
  next-marks c lt h =
      write-marks sb disk' a (copy_in m (off % 512) src i (disk' a)) away c lt ∙ b.marks c lt h

  pub next-kept :
      (k : ℕ)
      → k < sb.size
      → mark sb disk k ≡ 1
      → Apart sb k
      → ((j : ℕ) → k ≢ slot ip.addrs disk j)
      → (next k ≡ disk k) × ((j : ℕ) → k ≢ slot ip'.addrs next j)
  next-kept k lt used apart other =
      let new : (j : ℕ) → k ≢ slot ip'.addrs disk' j = λ j e. elim (b.new j) [
        | inl same ↦ other j (e ∙ same)
        | inr free ↦ omega (arith, used, free, ap (mark sb disk) e)
      ] in
      (
        update_other disk' a k (copy_in m (off % 512) src i (disk' a))
              (λ e. new (index (off / 512)) (sym e ∙ sym b.here))
            ∙ b.kept k lt used apart (new 12),
        λ j e. new j (e ∙ ap (λ s. s j) next-slot),
      )
