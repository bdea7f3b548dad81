-- ===== src/File/Write.antt =====
-- writei: every outcome, and what it does to this file and to the blocks of the others.
use graduation_prj.Base.{
  ℕ, zero, suc, ◌+◌, ◌-◌, ◌*◌, ◌/◌, ◌%◌, ◌≤◌, ◌≡◌, ◌≢◌, ◌⊎◌, inl, inr, min, refl, sym, ap, ◌∙◌,
  update, arith, ℕ_discrete, dec_lt, ne→==, Result, ok, ◌>>=◌,
}
use mathlib.Core.Path.{subst}
use graduation_prj.Bitmap.Defs.{Disk, Superblock}
use graduation_prj.File.Defs.{Inode, bmap, copy_in, write_from}
use graduation_prj.File.Room.{room, Returns, bind-Returns, weaken-Returns, map-Returns}
use graduation_prj.File.Slots.{slot, IsMapped}
use graduation_prj.File.Bmap.{Mapped, index, bmap-Mapped}
use graduation_prj.File.Contents.{
  Wrote, Wrote-none, next, next-IsMapped, next-room, next-written, next-Filled, next-grows,
  next-others, next-marks, next-kept,
}

abbrev pub with_addrs : (ℕ → ℕ) → Inode → Inode
with_addrs addrs ip = record ip { addrs = addrs }

-- A round and the rounds after it.
Wrote-next :
    (sb : Superblock) (src : ℕ → ℕ) (i off m left : ℕ) (ip : Inode) (disk : Disk) (a : ℕ)
    (ip' : Inode) (disk' : Disk) (r : Inode × Disk)
    → (before : IsMapped sb disk (slot ip.addrs disk))
    → (b : Mapped 2 sb (index (off / 512)) ip disk (a, ip', disk')) → (fits : off % 512 + m ≤ 512)
    → m ≤ left
    → Wrote sb src
        (i + m)
        (off + m)
        (left - m)
        ip'
        (next sb src i off m ip disk a ip' disk' before b fits)
        r
    → Wrote sb src i off left ip disk r
Wrote-next sb src i off m left ip disk a ip' disk' r before b fits le w = record {
  mapped = w.mapped;
  same = w.same ∙ ap (with_addrs r.0.addrs) b.same;
  written = λ p low high. elim (dec_lt p (off + m)) [
    | yes now ↦
        w.others p (inl now)
          (next-Filled sb src i off m ip disk a ip' disk' before b fits p low now)
        ∙ next-written sb src i off m ip disk a ip' disk' before b fits p low now
    | no later ↦
        w.written p (omega (arith, later)) (omega (arith, high, le)) ∙ ap src (omega (arith, later))
  ];
  filled = λ p low high. elim (dec_lt p (off + m)) [
    | yes now ↦
        let f = next-Filled sb src i off m ip disk a ip' disk' before b fits p low now in
        λ z. f (sym (w.grows (index (p / 512)) f) ∙ z)
    | no later ↦ w.filled p (omega (arith, later)) (omega (arith, high, le))
  ];
  others = λ p h f.
      let grown = next-grows sb src i off m ip disk a ip' disk' before b fits (index (p / 512)) f in
      w.others p
        (elim h [ inl low ↦ inl (omega (arith, low)) | inr high ↦ inr (omega (arith, high, le)) ])
        (λ z. f (sym grown ∙ z))
      ∙ next-others sb src i off m ip disk a ip' disk' before b fits p
          (elim h [ inl low ↦ inl low | inr high ↦ inr (omega (arith, high, le)) ]) f;
  grows = λ j h.
      let grown = next-grows sb src i off m ip disk a ip' disk' before b fits j h in
      w.grows j (λ z. h (sym grown ∙ z)) ∙ grown;
  kept = λ k lt used apart other.
      let first =
        next-kept sb src i off m ip disk a ip' disk' before b fits k lt used apart other in
      let rest =
        w.kept k lt (next-marks sb src i off m ip disk a ip' disk' before b fits k lt used) apart
          first.1 in
      (rest.0 ∙ first.0, rest.1);
  marks =
      λ c lt h. w.marks c lt (next-marks sb src i off m ip disk a ip' disk' before b fits c lt h);
}

pub write_from-none :
    (fuel : ℕ) (sb : Superblock) (src : ℕ → ℕ) (i off : ℕ) (ip : Inode) (disk : Disk)
    → write_from fuel sb src i off 0 ip disk ≡ ok (ip, disk)
unfolding write_from
write_from-none zero sb src i off ip disk = refl
write_from-none (suc fuel) sb src i off ip disk = refl

-- The rest of a round, once bmap has returned.
abbrev pub more : ℕ → Superblock → (ℕ → ℕ) → ℕ → ℕ → ℕ → (ℕ × Inode × Disk) → Result (Inode × Disk)
more fuel sb src i off left (addr, ip', disk') =
    let m = min left (512 - off % 512) in
    write_from fuel sb src (i + m) (off + m) (left - m) ip'
      (update disk' addr (copy_in m (off % 512) src i (disk' addr)))

pub write_from-more :
    (fuel : ℕ) (sb : Superblock) (src : ℕ → ℕ) (i off left : ℕ) (ip : Inode) (disk : Disk)
    → left ≢ 0
    → write_from (suc fuel) sb src i off left ip disk
      ≡ (bmap sb (off / 512) ip disk >>= more fuel sb src i off left)
unfolding write_from
write_from-more fuel sb src i off left ip disk ne = rw (ne→== left 0 ne) refl

pub later_blocks :
    (off left k : ℕ)
    → off + left ≤ 512 * (off / 512 + k)
    → (left - min left (512 - off % 512) ≡ 0)
      ⊎ (off + min left (512 - off % 512) + (left - min left (512 - off % 512))
          ≤ 512 * ((off + min left (512 - off % 512)) / 512 + (k - 1)))
later_blocks off left k touched = elim (ℕ_discrete (left - min left (512 - off % 512)) 0) [
  | yes e ↦ inl e
  | no ne ↦ inr (omega (arith, ne, touched))
]

-- With room for two blocks for each of the `k` blocks that the bytes touch, the loop returns.
pub write_from-Wrote :
    (fuel k : ℕ) (sb : Superblock) (src : ℕ → ℕ) (i off left : ℕ) (ip : Inode) (disk : Disk)
    → left ≤ fuel
    → off + left ≤ 71680
    → (left ≡ 0) ⊎ (off + left ≤ 512 * (off / 512 + k))
    → IsMapped sb disk (slot ip.addrs disk)
    → Returns
        (room sb disk)
        (2 * k)
        (Wrote sb src i off left ip disk)
        (write_from fuel sb src i off left ip disk)
write_from-Wrote zero k sb src i off left ip disk enough max blocks m =
    let e : left ≡ 0 = omega (arith, enough) in
    subst
      (λ n.
        Returns (room sb disk) (2 * k) (Wrote sb src i off n ip disk)
          (write_from zero sb src i off n ip disk))
      (sym e) (rw (write_from-none zero sb src i off ip disk) (Wrote-none sb src i off ip disk m))
write_from-Wrote (suc fuel) k sb src i off left ip disk enough max blocks m =
    elim (ℕ_discrete left 0) [
      | yes e ↦
          subst
            (λ n.
              Returns (room sb disk) (2 * k) (Wrote sb src i off n ip disk)
                (write_from (suc fuel) sb src i off n ip disk))
            (sym e)
            (rw (write_from-none (suc fuel) sb src i off ip disk)
              (Wrote-none sb src i off ip disk m))
      | no ne ↦
          let touched : off + left ≤ 512 * (off / 512 + k) = elim blocks [
            | inl z ↦ absurd (ne z)
            | inr t ↦ t
          ] in
          rw (write_from-more fuel sb src i off left ip disk ne) (
            bind-Returns (room sb disk) (2 * k) (Mapped 2 sb (index (off / 512)) ip disk)
              (Wrote sb src i off left ip disk) (bmap sb (off / 512) ip disk)
              (more fuel sb src i off left)
              (weaken-Returns (room sb disk) 2 (room sb disk) (2 * k)
                (Mapped 2 sb (index (off / 512)) ip disk) (bmap sb (off / 512) ip disk)
                (λ few. omega (arith, few, touched, ne))
                (bmap-Mapped sb (off / 512) ip disk (omega (arith, ne, max)) m))
              (λ (a, ip', disk') b.
                let j = min left (512 - off % 512) in
                let fits : off % 512 + j ≤ 512 = omega arith in
                let after = next sb src i off j ip disk a ip' disk' m b fits in
                map-Returns (room sb disk) (2 * k)
                  (Wrote sb src (i + j) (off + j) (left - j) ip' after)
                  (Wrote sb src i off left ip disk)
                  (write_from fuel sb src (i + j) (off + j) (left - j) ip' after)
                  (λ r w.
                    Wrote-next sb src i off j left ip disk a ip' disk' r m b fits (omega arith) w)
                  (weaken-Returns (room sb after) (2 * (k - 1)) (room sb disk) (2 * k)
                    (Wrote sb src (i + j) (off + j) (left - j) ip' after)
                    (write_from fuel sb src (i + j) (off + j) (left - j) ip' after)
                    (λ few. omega (
                      arith,
                      few,
                      next-room sb src i off j ip disk a ip' disk' m b fits,
                      b.spent,
                      touched,
                      ne,
                    ))
                    (write_from-Wrote fuel (k - 1) sb src (i + j) (off + j) (left - j) ip' after
                      (omega (arith, enough, ne)) (omega (arith, max))
                      (later_blocks off left k touched)
                      (next-IsMapped sb src i off j ip disk a ip' disk' m b fits)))))
    ]
