-- ===== src/File/Bmap.antt =====
-- What bmap returns: the block of a slot, which it fills if it is empty.
use graduation_prj.Base.{
  ℕ, ◌+◌, ◌-◌, ◌*◌, ◌^◌, ◌≤◌, ◌<◌, ◌≡◌, ◌≢◌, ◌⊎◌, inl, inr, refl, sym, ap, ◌∙◌, update, update_same,
  update_other, arith, ℕ_discrete, dec_lt, Bool-cases, ltb, ltb→lt, ltb→le, lt→ltb, ◌==◌, ==→eq,
  ==→ne, if◌then◌else◌, Result, ok, ◌>>=◌,
}
use mathlib.Core.Path.{subst, fun_ext}
use graduation_prj.Bitmap.Defs.{Disk, Superblock, balloc}
use graduation_prj.Bitmap.Bits.{mark, mark-le}
use graduation_prj.File.Words.{get_word, put_word, get_word-put_word, get_word-put_word_other}
use graduation_prj.File.Defs.{Inode, alloc_slot, alloc_entry, bmap}
use graduation_prj.File.Room.{
  Apart, Fresh, room, Returns, bind-Returns, weaken-Returns, map-Returns, balloc-Returns,
}
use graduation_prj.File.Slots.{
  slot, IsMapped, Fresh-slot, Fresh-IsMapped, assign-IsMapped, slot-direct, slot-entry, slot_past,
  slot-same, write-marks, write-room, write-IsMapped,
}

slot-update_direct :
    (addrs : ℕ → ℕ) (disk : Disk) (k n : ℕ)
    → k < 12
    → slot (update addrs k n) disk ≡ update (slot addrs disk) k n
slot-update_direct addrs disk k n lt = fun_ext λ i. ground arith

word_zero : (bytes : ℕ → ℕ) (o : ℕ) → ((i : ℕ) → bytes i ≡ 0) → get_word bytes o ≡ 0
word_zero bytes o h = omega (arith, h o, h (o + 1), h (o + 2), h (o + 3))

slot-update_indirect :
    (addrs : ℕ → ℕ) (disk : Disk) (n : ℕ)
    → addrs 12 ≡ 0
    → ((i : ℕ) → disk n i ≡ 0)
    → slot (update addrs 12 n) disk ≡ update (slot addrs disk) 12 n
slot-update_indirect addrs disk n e z =
    fun_ext λ i. ground (arith, e, word_zero (disk n) (4 * (i - 13)) z)

-- A new entry in the indirect block.
module _ (addrs : ℕ → ℕ) (disk : Disk) (bn n : ℕ) (ne : addrs 12 ≢ 0) (lt : bn < 128)
    (word : n < 2 ^ 32) where
  abbrev entry : ℕ → ℕ
  entry = put_word (4 * bn) n (disk (addrs 12))

  abbrev last : Disk
  last = update disk (addrs 12) entry

  apart_words :
      (i : ℕ) → ¬ (i < 13) → 13 + bn ≢ i → (4 * (i - 13) + 4 ≤ 4 * bn) ⊎ (4 * bn + 4 ≤ 4 * (i - 13))
  apart_words i high other = elim (dec_lt (i - 13) bn) [
    | yes under ↦ inl (omega (arith, under))
    | no over ↦ inr (omega (arith, over, other, high))
  ]

  slot-put_word : slot addrs last ≡ update (slot addrs disk) (13 + bn) n
  slot-put_word = fun_ext λ i. elim (dec_lt i 13) [
    | yes low ↦
        slot-direct addrs last i low
        ∙ sym (slot-direct addrs disk i low)
        ∙ sym (update_other (slot addrs disk) (13 + bn) i n (λ e. omega (arith, e, low)))
    | no high ↦ elim (dec_lt i 141) [
      | no past ↦
          slot_past addrs last i (omega (arith, past))
          ∙ sym (slot_past addrs disk i (omega (arith, past)))
          ∙ sym (update_other (slot addrs disk) (13 + bn) i n (λ e. omega (arith, e, past, lt)))
      | yes inside ↦
          slot-entry addrs last i (omega (arith, high)) inside ne
          ∙ ap (λ bytes. get_word bytes (4 * (i - 13))) (update_same disk (addrs 12) entry)
          ∙ elim (ℕ_discrete (13 + bn) i) [
            | yes at ↦
                ap (get_word entry) (omega (arith, at))
                ∙ get_word-put_word (4 * bn) n (disk (addrs 12)) word
                ∙ sym (
                    ap (update (slot addrs disk) (13 + bn) n) (sym at)
                    ∙ update_same (slot addrs disk) (13 + bn) n)
            | no other ↦
                get_word-put_word_other (4 * bn) n (disk (addrs 12)) (4 * (i - 13))
                  (apart_words i high other)
                ∙ sym (slot-entry addrs disk i (omega (arith, high)) inside ne)
                ∙ sym (update_other (slot addrs disk) (13 + bn) i n other)
          ]
    ]
  ]

-- The call has filled the slot `i` or found it filled, with the block `a`. Every filled slot keeps its
-- block, and every block in use keeps its contents, but for the bitmap and the indirect block.
pub record Mapped (cost : ℕ) (sb : Superblock) (i : ℕ) (ip : Inode) (disk : Disk)
    (r : ℕ × Inode × Disk) : Type 0 where
  pub mapped : IsMapped sb r.2 (slot r.1.addrs r.2)
  pub here : slot r.1.addrs r.2 i ≡ r.0
  pub nonzero : r.0 ≢ 0
  pub grows : (j : ℕ) → slot ip.addrs disk j ≢ 0 → slot r.1.addrs r.2 j ≡ slot ip.addrs disk j
  pub only : (j : ℕ) → j ≢ i → j ≢ 12 → slot r.1.addrs r.2 j ≡ slot ip.addrs disk j
  pub kept :
      (b : ℕ)
      → b < sb.size
      → mark sb disk b ≡ 1
      → Apart sb b
      → b ≢ slot r.1.addrs r.2 12
      → r.2 b ≡ disk b
  pub fresh : slot ip.addrs disk i ≡ 0 → (o : ℕ) → r.2 r.0 o ≡ 0
  pub same : r.1 ≡ record ip { addrs = r.1.addrs }
  pub marks : (c : ℕ) → c < sb.size → mark sb disk c ≡ 1 → mark sb r.2 c ≡ 1
  pub spent : room sb disk ≤ room sb r.2 + cost
  pub new :
      (j : ℕ)
      → (slot r.1.addrs r.2 j ≡ slot ip.addrs disk j) ⊎ (mark sb disk (slot r.1.addrs r.2 j) ≡ 0)

Mapped-found :
    (cost : ℕ) (sb : Superblock) (i : ℕ) (ip : Inode) (disk : Disk) (a : ℕ)
    → IsMapped sb disk (slot ip.addrs disk)
    → slot ip.addrs disk i ≡ a
    → a ≢ 0
    → Mapped cost sb i ip disk (a, ip, disk)
Mapped-found cost sb i ip disk a m e ne = record {
  mapped = m;
  here = e;
  nonzero = ne;
  grows = λ j h. refl;
  only = λ j h h'. refl;
  kept = λ b lt used apart other. refl;
  fresh = λ z. absurd (ne (sym e ∙ z));
  same = refl;
  marks = λ c lt h. h;
  spent = omega arith;
  new = λ j. inl refl;
}

-- A fresh block for an empty slot, once the slots are known to be assigned so.
Mapped-Fresh :
    (sb : Superblock) (k : ℕ) (ip ip' : Inode) (disk after last : Disk) (n : ℕ)
    → IsMapped sb disk (slot ip.addrs disk)
    → Fresh sb disk n after
    → slot ip.addrs disk k ≡ 0
    → slot ip'.addrs last ≡ update (slot ip.addrs disk) k n
    → ip' ≡ record ip { addrs = ip'.addrs }
    → IsMapped sb last (slot ip.addrs disk)
    → ((c : ℕ) → c < sb.size → mark sb last c ≡ mark sb after c)
    → room sb last ≡ room sb after
    → ((b : ℕ) → b ≢ slot ip'.addrs last 12 → last b ≡ after b)
    → last n ≡ after n
    → Mapped 1 sb k ip disk (n, ip', last)
Mapped-Fresh sb k ip ip' disk after last n m f empty assigned same m' marks rooms kept zero_there =
    let new = Fresh-slot sb disk n after (slot ip.addrs disk) m f in
    record {
      mapped = subst (IsMapped sb last) (sym assigned) (
          assign-IsMapped sb last (slot ip.addrs disk) k n m' f.taken.inside
            (marks n f.taken.inside ∙ f.taken.used) f.not_bitmap new);
      here = ap (λ s. s k) assigned ∙ update_same (slot ip.addrs disk) k n;
      nonzero = f.nonzero;
      grows = λ j h.
          ap (λ s. s j) assigned
          ∙ update_other (slot ip.addrs disk) k j n
              (λ e. h (ap (slot ip.addrs disk) (sym e) ∙ empty));
      only = λ j ne _.
          ap (λ s. s j) assigned ∙ update_other (slot ip.addrs disk) k j n (λ e. ne (sym e));
      kept = λ b lt used apart other.
          kept b other
          ∙ f.taken.untouched b (λ e. omega (arith, used, f.taken.free, ap (mark sb disk) e))
              (apart n f.taken.inside);
      fresh = λ _ o. ap (λ bytes. bytes o) zero_there ∙ f.taken.zeroed o;
      same = same;
      marks = λ c lt used.
          marks c lt
          ∙ f.taken.others c lt (λ e. omega (arith, used, f.taken.free, ap (mark sb disk) e))
          ∙ used;
      spent = omega (arith, f.less, rooms);
      new = λ j. elim (ℕ_discrete k j) [
        | yes at ↦ inr (
            ap (mark sb disk) (
              ap (λ s. s j) assigned
              ∙ ap (update (slot ip.addrs disk) k n) (sym at)
              ∙ update_same (slot ip.addrs disk) k n)
            ∙ f.taken.free)
        | no other ↦ inl (ap (λ s. s j) assigned ∙ update_other (slot ip.addrs disk) k j n other)
      ];
    }

-- The indirect block, if there is one, is not changed by balloc.
indirect_kept :
    (sb : Superblock) (disk : Disk) (n : ℕ) (after : Disk) (addrs : ℕ → ℕ)
    → IsMapped sb disk (slot addrs disk)
    → Fresh sb disk n after
    → addrs 12 ≢ 0
    → after (addrs 12) ≡ disk (addrs 12)
indirect_kept sb disk n after addrs m f ne =
    f.taken.untouched (addrs 12) (Fresh-slot sb disk n after (slot addrs disk) m f 12)
      (m.apart 12 ne n f.taken.inside)

alloc_slot_assigned :
    (sb : Superblock) (k : ℕ) (ip : Inode) (disk : Disk) (n : ℕ) (after : Disk)
    → k ≤ 12
    → IsMapped sb disk (slot ip.addrs disk)
    → Fresh sb disk n after
    → ip.addrs k ≡ 0
    → slot (update ip.addrs k n) after ≡ update (slot ip.addrs disk) k n
alloc_slot_assigned sb k ip disk n after le m f empty =
    let same = slot-same ip.addrs disk after (indirect_kept sb disk n after ip.addrs m f) in
    elim (ℕ_discrete k 12) [
      | no ne ↦
          slot-update_direct ip.addrs after k n (omega (arith, le, ne))
          ∙ ap (λ s. update s k n) same
      | yes e ↦
          subst
            (λ j.
              ip.addrs j ≡ 0 → slot (update ip.addrs j n) after ≡ update (slot ip.addrs disk) j n)
            (sym e)
            (λ z.
              slot-update_indirect ip.addrs after n z f.taken.zeroed ∙ ap (λ s. update s 12 n) same)
            empty
    ]

pub alloc_slot-Mapped :
    (sb : Superblock) (k : ℕ) (ip : Inode) (disk : Disk)
    → k ≤ 12
    → IsMapped sb disk (slot ip.addrs disk)
    → Returns (room sb disk) 1 (Mapped 1 sb k ip disk) (alloc_slot sb k ip disk)
unfolding alloc_slot
alloc_slot-Mapped sb k ip disk le m =
    let direct = slot-direct ip.addrs disk k (omega (arith, le)) in
    elim (Bool-cases (ip.addrs k == 0)) [
      | inr h ↦ rw h (Mapped-found 1 sb k ip disk (ip.addrs k) m direct (==→ne (ip.addrs k) 0 h))
      | inl h ↦
          let empty = ==→eq (ip.addrs k) 0 h in
          rw h (
            bind-Returns (room sb disk) 1 (λ (n, after). Fresh sb disk n after)
              (Mapped 1 sb k ip disk) (balloc sb disk)
              (λ (addr, disk'). ok (addr, record ip { addrs = update ip.addrs k addr }, disk'))
              (balloc-Returns sb disk m.sound)
              (λ (n, after) f.
                Mapped-Fresh sb k ip (record ip { addrs = update ip.addrs k n }) disk after after n
                  m f (direct ∙ empty) (alloc_slot_assigned sb k ip disk n after le m f empty) refl
                  (Fresh-IsMapped sb disk n after (slot ip.addrs disk) m f) (λ c lt. refl) refl
                  (λ b ne. refl) refl))
    ]

pub alloc_entry-Mapped :
    (sb : Superblock) (bn : ℕ) (ip : Inode) (disk : Disk)
    → bn < 128
    → ip.addrs 12 ≢ 0
    → IsMapped sb disk (slot ip.addrs disk)
    → Returns
        (room sb disk)
        1
        (λ (a, after). Mapped 1 sb (13 + bn) ip disk (a, ip, after))
        (alloc_entry sb (ip.addrs 12) bn disk)
unfolding alloc_entry
alloc_entry-Mapped sb bn ip disk lt ne m =
    let entry : slot ip.addrs disk (13 + bn) ≡ get_word (disk (ip.addrs 12)) (4 * bn) =
      slot-entry ip.addrs disk (13 + bn) (omega arith) (omega (arith, lt)) ne
      ∙ ap (get_word (disk (ip.addrs 12))) (omega arith) in
    elim (Bool-cases (get_word (disk (ip.addrs 12)) (4 * bn) == 0)) [
      | inr h ↦ rw h (
          Mapped-found 1 sb (13 + bn) ip disk (get_word (disk (ip.addrs 12)) (4 * bn)) m entry
            (==→ne (get_word (disk (ip.addrs 12)) (4 * bn)) 0 h))
      | inl h ↦
          let empty = entry ∙ ==→eq (get_word (disk (ip.addrs 12)) (4 * bn)) 0 h in
          rw h (
            bind-Returns (room sb disk) 1 (λ (n, after). Fresh sb disk n after)
              (λ (a, after). Mapped 1 sb (13 + bn) ip disk (a, ip, after)) (balloc sb disk)
              (λ (addr, disk').
                ok
                  (addr, update disk' (ip.addrs 12) (put_word (4 * bn) addr (disk' (ip.addrs 12)))))
              (balloc-Returns sb disk m.sound) (λ (n, after) f. filled n after f empty))
    ]
  where
    filled :
        (n : ℕ) (after : Disk)
        → Fresh sb disk n after
        → slot ip.addrs disk (13 + bn) ≡ 0
        → Mapped 1 sb
            (13 + bn)
            ip
            disk
            (n, ip, update after (ip.addrs 12) (put_word (4 * bn) n (after (ip.addrs 12))))
    filled n after f empty =
        let bytes = put_word (4 * bn) n (after (ip.addrs 12)) in
        let away = m.apart 12 ne in
        Mapped-Fresh sb (13 + bn) ip ip disk after (update after (ip.addrs 12) bytes) n m f empty
          (slot-put_word ip.addrs after bn n ne lt (omega (arith, f.taken.inside, m.sound.words))
            ∙ ap (λ s. update s (13 + bn) n)
                (slot-same ip.addrs disk after (indirect_kept sb disk n after ip.addrs m f)))
          refl
          (write-IsMapped sb after (ip.addrs 12) bytes away (slot ip.addrs disk)
            (Fresh-IsMapped sb disk n after (slot ip.addrs disk) m f))
          (write-marks sb after (ip.addrs 12) bytes away)
          (write-room sb after (ip.addrs 12) bytes away)
          (λ b other. update_other after (ip.addrs 12) b bytes (λ e. other (sym e)))
          (update_other after (ip.addrs 12) n bytes
            (Fresh-slot sb disk n after (slot ip.addrs disk) m f 12))

-- A block that is free after was free before.
pub free_before :
    (sb : Superblock) (disk after : Disk) (b : ℕ)
    → ((c : ℕ) → c < sb.size → mark sb disk c ≡ 1 → mark sb after c ≡ 1)
    → b < sb.size
    → mark sb after b ≡ 0
    → mark sb disk b ≡ 0
free_before sb disk after b marks lt free = elim (ℕ_discrete (mark sb disk b) 1) [
  | yes used ↦ absurd (omega (arith, free, marks b lt used))
  | no unused ↦ omega (arith, unused, mark-le sb disk b)
]

pub slot_inside :
    (sb : Superblock) (disk : Disk) (s : ℕ → ℕ) → IsMapped sb disk s → (j : ℕ) → s j < sb.size
slot_inside sb disk s m j = elim (ℕ_discrete (s j) 0) [
  | yes none_there ↦ omega (arith, none_there, m.sound.boot_inside)
  | no there ↦ m.inside j there
]

Mapped-Mapped :
    (sb : Superblock) (bn : ℕ) (ip ip' : Inode) (disk disk' disk'' : Disk) (indirect addr : ℕ)
    → Mapped 1 sb 12 ip disk (indirect, ip', disk')
    → Mapped 1 sb (13 + bn) ip' disk' (addr, ip', disk'')
    → Mapped 2 sb (13 + bn) ip disk (addr, ip', disk'')
Mapped-Mapped sb bn ip ip' disk disk' disk'' indirect addr first second = record {
  mapped = second.mapped;
  here = second.here;
  nonzero = second.nonzero;
  grows = λ j h. second.grows j (λ z. h (sym (first.grows j h) ∙ z)) ∙ first.grows j h;
  only = λ j ne ne12. second.only j ne ne12 ∙ first.only j ne12 ne12;
  kept = λ b lt used apart other.
      second.kept b lt (first.marks b lt used) apart other
      ∙ first.kept b lt used apart
          (λ e. other (e ∙ sym (second.grows 12 (λ z. first.nonzero (sym first.here ∙ z)))));
  fresh = λ empty.
      second.fresh (first.only (13 + bn) (λ e. omega (arith, e)) (λ e. omega (arith, e)) ∙ empty);
  same = first.same;
  marks = λ c lt used. second.marks c lt (first.marks c lt used);
  spent = omega (arith, first.spent, second.spent);
  new = λ j. elim (second.new j) [
    | inl same ↦ elim (first.new j) [
      | inl same' ↦ inl (same ∙ same')
      | inr free ↦ inr (ap (mark sb disk) same ∙ free)
    ]
    | inr free ↦ inr (
        free_before sb disk disk' (slot ip'.addrs disk'' j) first.marks
          (slot_inside sb disk'' (slot ip'.addrs disk'') second.mapped j) free)
  ];
}

-- The slot of the block `bn` of a file.
abbrev pub index : ℕ → ℕ
index bn = if ltb bn 12 then bn else bn + 1

Mapped-cost :
    (sb : Superblock) (i : ℕ) (ip : Inode) (disk : Disk) (r : ℕ × Inode × Disk)
    → Mapped 1 sb i ip disk r
    → Mapped 2 sb i ip disk r
Mapped-cost sb i ip disk r p = record {
  mapped = p.mapped;
  here = p.here;
  nonzero = p.nonzero;
  grows = p.grows;
  only = p.only;
  kept = p.kept;
  fresh = p.fresh;
  same = p.same;
  marks = p.marks;
  spent = omega (arith, p.spent);
  new = p.new;
}

-- The arguments of the two branches of bmap.
module _ (sb : Superblock) (bn : ℕ) (ip : Inode) (disk : Disk)
    (m : IsMapped sb disk (slot ip.addrs disk)) where
  direct-Mapped :
      bn < 12 → Returns (room sb disk) 2 (Mapped 2 sb bn ip disk) (alloc_slot sb bn ip disk)
  direct-Mapped lt =
      weaken-Returns (room sb disk) 1 (room sb disk) 2 (Mapped 2 sb bn ip disk)
        (alloc_slot sb bn ip disk) (λ few. omega (arith, few))
        (map-Returns (room sb disk) 1 (Mapped 1 sb bn ip disk) (Mapped 2 sb bn ip disk)
          (alloc_slot sb bn ip disk) (Mapped-cost sb bn ip disk)
          (alloc_slot-Mapped sb bn ip disk (omega (arith, lt)) m))

  abbrev look_up : (ℕ × Inode × Disk) → Result (ℕ × Inode × Disk)
  look_up (indirect, ip', disk') =
      alloc_entry sb indirect (bn - 12) disk' >>= λ (addr, disk''). ok (addr, ip', disk'')

  look_up-Mapped :
      (indirect : ℕ) (ip' : Inode) (disk' : Disk)
      → 12 ≤ bn
      → bn < 140
      → Mapped 1 sb 12 ip disk (indirect, ip', disk')
      → Returns (room sb disk) 2 (Mapped 2 sb (bn + 1) ip disk) (look_up (indirect, ip', disk'))
  look_up-Mapped indirect ip' disk' le lt first =
      let there : ip'.addrs 12 ≢ 0 = λ z. first.nonzero (sym first.here ∙ z) in
      let at : 13 + (bn - 12) ≡ bn + 1 = omega (arith, le) in
      subst (λ a. Returns (room sb disk) 2 (Mapped 2 sb (bn + 1) ip disk) (look_up (a, ip', disk')))
        first.here
        (bind-Returns (room sb disk) 2
          (λ (a, after). Mapped 1 sb (13 + (bn - 12)) ip' disk' (a, ip', after))
          (Mapped 2 sb (bn + 1) ip disk) (alloc_entry sb (ip'.addrs 12) (bn - 12) disk')
          (λ (addr, disk''). ok (addr, ip', disk''))
          (weaken-Returns (room sb disk') 1 (room sb disk) 2
            (λ (a, after). Mapped 1 sb (13 + (bn - 12)) ip' disk' (a, ip', after))
            (alloc_entry sb (ip'.addrs 12) (bn - 12) disk') (λ few. omega (arith, few, first.spent))
            (alloc_entry-Mapped sb (bn - 12) ip' disk' (omega (arith, lt)) there first.mapped))
          (λ (a, after) second.
            subst (λ i. Mapped 2 sb i ip disk (a, ip', after)) at
              (Mapped-Mapped sb (bn - 12) ip ip' disk disk' after indirect a first second)))

  indirect-Mapped :
      12 ≤ bn
      → bn < 140
      → Returns
          (room sb disk)
          2
          (Mapped 2 sb (bn + 1) ip disk)
          (alloc_slot sb 12 ip disk >>= look_up)
  indirect-Mapped le lt =
      bind-Returns (room sb disk) 2 (Mapped 1 sb 12 ip disk) (Mapped 2 sb (bn + 1) ip disk)
        (alloc_slot sb 12 ip disk) look_up
        (weaken-Returns (room sb disk) 1 (room sb disk) 2 (Mapped 1 sb 12 ip disk)
          (alloc_slot sb 12 ip disk) (λ few. omega (arith, few))
          (alloc_slot-Mapped sb 12 ip disk (omega arith) m))
        (λ (indirect, ip', disk') first. look_up-Mapped indirect ip' disk' le lt first)

-- For a block number below `maxfile` of an inode whose blocks are all in use and different, bmap
-- returns the block of its slot, a zeroed one if the slot was empty. The other slots keep their
-- blocks, every block in use outside the bitmap and the indirect block keeps its contents, and at
-- most two blocks are spent. It panics only if fewer than two blocks are free.
pub bmap-Mapped :
    (sb : Superblock) (bn : ℕ) (ip : Inode) (disk : Disk)
    → bn < 140
    → IsMapped sb disk (slot ip.addrs disk)
    → Returns (room sb disk) 2 (Mapped 2 sb (index bn) ip disk) (bmap sb bn ip disk)
unfolding bmap
bmap-Mapped sb bn ip disk lt m = elim (Bool-cases (ltb bn 12)) [
  | inl h ↦ rw h (direct-Mapped sb bn ip disk m (ltb→lt bn 12 h))
  | inr h ↦ rw h (
      rw (lt→ltb (bn - 12) 128 (omega (arith, lt)))
        (indirect-Mapped sb bn ip disk m (ltb→le bn 12 h) lt))
]
