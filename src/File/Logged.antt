-- ===== src/File/Logged.antt =====
-- fs.c: the blocks that balloc and bmap change, where one bitmap block tells of the whole file system.
use graduation_prj.Base.{
  ℕ, zero, suc, ◌+◌, ◌-◌, ◌*◌, ◌/◌, ◌%◌, ◌≤◌, ◌<◌, ◌≡◌, ◌≢◌, inl, inr, refl, sym, ◌∙◌, List, [],
  ◌∷◌, All, Option, none, some, update, update_same, update_other, arith, Bool-cases, ltb, ltb→lt,
  ◌==◌, ==→eq, Result, ok, stop, ◌>>=◌,
}
use graduation_prj.Bitmap.Defs.{
  Disk, Superblock, set_bit, write_byte, bblock, find_bit, take_block, or_next, balloc_from, balloc,
}
use graduation_prj.File.Words.{get_word, put_word}
use graduation_prj.File.Defs.{Inode, alloc_slot, alloc_entry, bmap}

-- A property of the value, if the code returns one.
abbrev pub IfOk {ℓ} : {R : Type ℓ} → (R → Type 0) → Result R → Type 0
IfOk P (ok value) = P value
IfOk P (stop why) = Unit

pub bind-IfOk :
    {A B : Type 0} (P : A → Type 0) (Q : B → Type 0) (first : Result A) (next : A → Result B)
    → IfOk P first
    → ((a : A) → P a → IfOk Q (next a))
    → IfOk Q (first >>= next)
bind-IfOk P Q (ok a) next h k = k a h
bind-IfOk P Q (stop why) next h k = tt

pub weaken-IfOk :
    {A : Type 0} (P Q : A → Type 0) (m : Result A) → ((a : A) → P a → Q a) → IfOk P m → IfOk Q m
weaken-IfOk P Q (ok a) h r = h a r
weaken-IfOk P Q (stop why) h r = tt

-- The disks are the same but for some blocks.
abbrev pub SameBut : List ℕ → Disk → Disk → Type 0
SameBut blocks disk after = (b : ℕ) → All (λ a. b ≢ a) blocks → after b ≡ disk b

abbrev pub TookBlock : Superblock → Disk → ℕ × Disk → Type 0
TookBlock sb disk (n, after) = SameBut (n ∷ sb.bmapstart ∷ []) disk after

-- A slot of the inode, after it has a block.
abbrev pub Slotted : Superblock → ℕ → Inode → Disk → ℕ × Inode × Disk → Type 0
Slotted sb k ip disk (addr, ip', disk') =
    SameBut (addr ∷ sb.bmapstart ∷ []) disk disk'
    × (ip'.addrs k ≡ addr)
    × (ip.addrs k ≢ 0 → ip'.addrs k ≡ ip.addrs k)
    × ((j : ℕ) → j ≢ k → ip'.addrs j ≡ ip.addrs j)

abbrev pub Entered : Superblock → ℕ → Disk → ℕ × Disk → Type 0
Entered sb indirect disk (addr, disk') = SameBut (addr ∷ sb.bmapstart ∷ indirect ∷ []) disk disk'

-- What `bmap` changes: the block it returns, the indirect block, the bitmap's block.
abbrev pub BmapSame : Superblock → Inode → Disk → ℕ × Inode × Disk → Type 0
BmapSame sb ip disk (addr, ip', disk') =
    SameBut (addr ∷ sb.bmapstart ∷ ip'.addrs 12 ∷ []) disk disk'
    × (ip.addrs 12 ≢ 0 → ip'.addrs 12 ≡ ip.addrs 12)

module _ (sb : Superblock) (one : sb.size ≤ 4096) where
  take_block-same :
      (b bi : ℕ) (disk : Disk) → b < 4096 → TookBlock sb disk (take_block b bi sb disk)
  unfolding take_block
  take_block-same b bi disk lt c (ne, (apart, _)) =
      let row = disk (bblock b sb) in
      let marked = write_byte (bblock b sb) bi (set_bit (row (bi / 8)) (bi % 8)) disk in
      update_other marked (b + bi) c (λ _. 0) (λ e. ne (sym e))
      ∙ update_other disk (bblock b sb) c (update row (bi / 8) (set_bit (row (bi / 8)) (bi % 8)))
          (λ e. apart (sym e ∙ omega (arith, lt)))

  or_next-same :
      (b : ℕ) (disk : Disk) (o : Option ℕ) (next : Result (ℕ × Disk))
      → b < 4096
      → IfOk (TookBlock sb disk) next
      → IfOk (TookBlock sb disk) (or_next b sb disk o next)
  or_next-same b disk none next lt h = h
  or_next-same b disk (some bi) next lt h = take_block-same b bi disk lt

  balloc_from-same :
      (rounds b : ℕ) (disk : Disk) → IfOk (TookBlock sb disk) (balloc_from rounds b sb disk)
  unfolding balloc_from
  balloc_from-same zero b disk = tt
  balloc_from-same (suc rounds) b disk = elim (Bool-cases (ltb b sb.size)) [
    | inl lt ↦ rw lt (
        or_next-same b disk (find_bit 4096 0 b sb.size (disk (bblock b sb)))
          (balloc_from rounds (b + 4096) sb disk) (omega (arith, ltb→lt b sb.size lt, one))
          (balloc_from-same rounds (b + 4096) disk))
    | inr past ↦ rw past tt
  ]

  balloc-same : (disk : Disk) → IfOk (TookBlock sb disk) (balloc sb disk)
  unfolding balloc
  balloc-same disk = balloc_from-same (sb.size / 4096 + 1) 0 disk

  alloc_slot-Slotted :
      (k : ℕ) (ip : Inode) (disk : Disk) → IfOk (Slotted sb k ip disk) (alloc_slot sb k ip disk)
  unfolding alloc_slot
  alloc_slot-Slotted k ip disk = elim (Bool-cases (ip.addrs k == 0)) [
    | inl none_there ↦ rw none_there (
        bind-IfOk (TookBlock sb disk) (Slotted sb k ip disk) (balloc sb disk)
          (λ (addr, disk'). ok (addr, record ip { addrs = update ip.addrs k addr }, disk'))
          (balloc-same disk)
          (λ (addr, disk') h. (
            h,
            update_same ip.addrs k addr,
            λ ne. absurd (ne (==→eq (ip.addrs k) 0 none_there)),
            λ j ne. update_other ip.addrs k j addr (λ e. ne (sym e)),
          )))
    | inr there ↦ rw there (λ b h. refl, refl, λ _. refl, λ j ne. refl)
  ]

  alloc_entry-Entered :
      (indirect bn : ℕ) (disk : Disk)
      → IfOk (Entered sb indirect disk) (alloc_entry sb indirect bn disk)
  unfolding alloc_entry
  alloc_entry-Entered indirect bn disk =
      elim (Bool-cases (get_word (disk indirect) (4 * bn) == 0)) [
        | inl none_there ↦ rw none_there (
            bind-IfOk (TookBlock sb disk) (Entered sb indirect disk) (balloc sb disk)
              (λ (addr, disk').
                ok (addr, update disk' indirect (put_word (4 * bn) addr (disk' indirect))))
              (balloc-same disk)
              (λ (addr, disk') h b (ne, (apart, (other, _))).
                update_other disk' indirect b _ (λ e. other (sym e)) ∙ h b (ne, (apart, tt))))
        | inr there ↦ rw there (λ b h. refl)
      ]

  direct-BmapSame :
      (bn : ℕ) (ip : Inode) (disk : Disk) (r : ℕ × Inode × Disk)
      → bn < 12
      → Slotted sb bn ip disk r
      → BmapSame sb ip disk r
  direct-BmapSame bn ip disk (addr, ip', disk') lt (same, _, _, others) =
      (λ b (ne, (apart, _)). same b (ne, (apart, tt)), λ _. others 12 (λ e. omega (arith, lt, e)))

  pub bmap-BmapSame :
      (bn : ℕ) (ip : Inode) (disk : Disk) → IfOk (BmapSame sb ip disk) (bmap sb bn ip disk)
  unfolding bmap
  bmap-BmapSame bn ip disk = elim (Bool-cases (ltb bn 12)) [
    | inl direct ↦ rw direct (
        weaken-IfOk (Slotted sb bn ip disk) (BmapSame sb ip disk) (alloc_slot sb bn ip disk)
          (λ r. direct-BmapSame bn ip disk r (ltb→lt bn 12 direct)) (alloc_slot-Slotted bn ip disk))
    | inr past ↦ elim (Bool-cases (ltb (bn - 12) 128)) [
      | inl entry ↦ rw past (
          rw entry (
            bind-IfOk (Slotted sb 12 ip disk) (BmapSame sb ip disk) (alloc_slot sb 12 ip disk)
              (λ (indirect, ip', disk').
                alloc_entry sb indirect (bn - 12) disk' >>= λ (addr, disk'').
                ok (addr, ip', disk''))
              (alloc_slot-Slotted 12 ip disk)
              (λ (indirect, ip', disk') (same, at, kept, _).
                bind-IfOk (Entered sb indirect disk') (BmapSame sb ip disk)
                  (alloc_entry sb indirect (bn - 12) disk')
                  (λ (addr, disk''). ok (addr, ip', disk''))
                  (alloc_entry-Entered indirect (bn - 12) disk')
                  (λ (addr, disk'') entered. (
                    λ b (ne, (apart, (other, _))).
                        (let off : b ≢ indirect = λ e. other (e ∙ sym at) in
                          entered b (ne, (apart, (off, tt))) ∙ same b (off, (apart, tt))),
                    kept,
                  )))))
      | inr far ↦ rw past (rw far tt)
    ]
  ]
