-- ===== src/File/Changes.antt =====
-- fs.c: how many blocks writei changes, each of which it notes in the log.
use graduation_prj.Base.{
  ℕ, zero, suc, ◌+◌, ◌-◌, ◌*◌, ◌/◌, ◌%◌, ◌≤◌, ◌≡◌, ◌≢◌, ◌⊎◌, inl, inr, refl, sym, ◌∙◌, min, Bool,
  List, [], ◌∷◌, length, Option, update, update_other, arith, ℕ_discrete, Bool-cases, ltb, ok, ◌&&◌,
  ◌||◌, ◌^◌, ne→==,
}
use mathlib.Core.Path.{subst}
use graduation_prj.Bitmap.Defs.{Disk, Superblock}
use graduation_prj.File.Write.{write_from-none, write_from-more, more, later_blocks}
use graduation_prj.File.Defs.{
  Inode, writei, t_dev, DevWrite, maxfile, bsize, bmap, copy_in, write_from, wrote, iupdate, iblock,
}
use graduation_prj.File.Logged.{IfOk, bind-IfOk, weaken-IfOk, SameBut, BmapSame, bmap-BmapSame}

-- No more than `k` blocks are different on the disk after.
abbrev pub Changes : ℕ → Disk → Option ℕ × Inode × Disk → Type 0
Changes k disk (_, _, after) = (blocks : List ℕ) × (length blocks ≤ k) × SameBut blocks disk after

-- The test of `writei` that refuses.
abbrev pub refuses : ℕ → ℕ → ℕ → Bool
refuses size off n =
    (ltb size off || ltb ((off + n) % 2 ^ 32) off) || ltb (maxfile * bsize) ((off + n) % 2 ^ 32)

-- What the rounds of `writei` change: the indirect block, the bitmap's block and `k` blocks of bytes.
abbrev Rounds : Superblock → ℕ → Inode → Disk → Inode × Disk → Type 0
Rounds sb k ip disk (ip', after) =
    (bytes : List ℕ) × (length bytes ≤ k)
    × (ip.addrs 12 ≢ 0 → ip'.addrs 12 ≡ ip.addrs 12)
    × SameBut (0 ∷ sb.bmapstart ∷ ip'.addrs 12 ∷ bytes) disk after

module _ (sb : Superblock) (one : sb.size ≤ 4096) where
  Rounds-none : (k : ℕ) (ip : Inode) (disk : Disk) → Rounds sb k ip disk (ip, disk)
  Rounds-none k ip disk = ([], omega arith, λ _. refl, λ b h. refl)

  Rounds-next :
      (k addr : ℕ) (row : ℕ → ℕ) (ip ip' : Inode) (disk disk' : Disk) (r : Inode × Disk)
      → 1 ≤ k
      → BmapSame sb ip disk (addr, ip', disk')
      → Rounds sb (k - 1) ip' (update disk' addr row) r
      → Rounds sb k ip disk r
  Rounds-next k addr row ip ip' disk disk' (last, after) some_left (same, held)
        (bytes, few, keeps, rest) =
      (
        addr ∷ bytes,
        omega (arith, few, some_left),
        λ ne. keeps (λ z. ne (sym (held ne) ∙ z)) ∙ held ne,
        λ b (boot, (apart, (other, (ne, others)))).
            rest b (boot, (apart, (other, others)))
            ∙ update_other disk' addr b row (λ e. ne (sym e))
            ∙ same b (
              ne,
              (
                apart,
                (
                  elim (ℕ_discrete (ip'.addrs 12) 0) [
                    | yes z ↦ λ e. boot (e ∙ z)
                    | no there ↦ λ e. other (e ∙ sym (keeps there))
                  ],
                  tt,
                ),
              ),
            ),
      )

  write_from-Rounds :
      (fuel k : ℕ) (src : ℕ → ℕ) (i off left : ℕ) (ip : Inode) (disk : Disk)
      → left ≤ fuel
      → (left ≡ 0) ⊎ (off + left ≤ 512 * (off / 512 + k))
      → IfOk (Rounds sb k ip disk) (write_from fuel sb src i off left ip disk)
  write_from-Rounds zero k src i off left ip disk enough blocks =
      let none_left : left ≡ 0 = omega (arith, enough) in
      subst (λ n. IfOk (Rounds sb k ip disk) (write_from zero sb src i off n ip disk))
        (sym none_left) (rw (write_from-none zero sb src i off ip disk) (Rounds-none k ip disk))
  write_from-Rounds (suc fuel) k src i off left ip disk enough blocks = elim (ℕ_discrete left 0) [
    | yes e ↦
        subst (λ n. IfOk (Rounds sb k ip disk) (write_from (suc fuel) sb src i off n ip disk))
          (sym e) (rw (write_from-none (suc fuel) sb src i off ip disk) (Rounds-none k ip disk))
    | no ne ↦
        let touched : off + left ≤ 512 * (off / 512 + k) = elim blocks [
          | inl z ↦ absurd (ne z)
          | inr t ↦ t
        ] in
        let j = min left (512 - off % 512) in
        rw (write_from-more fuel sb src i off left ip disk ne) (
          bind-IfOk (BmapSame sb ip disk) (Rounds sb k ip disk) (bmap sb (off / 512) ip disk)
            (more fuel sb src i off left) (bmap-BmapSame sb one (off / 512) ip disk)
            (λ (addr, ip', disk') b.
              let row = copy_in j (off % 512) src i (disk' addr) in
              weaken-IfOk (Rounds sb (k - 1) ip' (update disk' addr row)) (Rounds sb k ip disk)
                (write_from fuel sb src (i + j) (off + j) (left - j) ip' (update disk' addr row))
                (λ r. Rounds-next k addr row ip ip' disk disk' r (omega (arith, touched, ne)) b)
                (write_from-Rounds fuel (k - 1) src (i + j) (off + j) (left - j) ip'
                  (update disk' addr row) (omega (arith, enough, ne))
                  (later_blocks off left k touched))))
  ]

  wrote-Changes :
      (off n k : ℕ) (ip : Inode) (disk : Disk) (r : Inode × Disk)
      → Rounds sb k ip disk r
      → Changes (4 + k) disk (wrote sb off n r)
  unfolding iupdate
  wrote-Changes off n k ip disk (ip', after) (bytes, few, _, same) =
      elim (Bool-cases (ltb 0 n && ltb ip'.size (off + n))) [
        | inl longer ↦ rw longer (
          iblock ip'.inum sb ∷ 0 ∷ sb.bmapstart ∷ ip'.addrs 12 ∷ bytes,
          omega (arith, few),
          λ b (home, rest).
              update_other after (iblock ip'.inum sb) b _ (λ e. home (sym e)) ∙ same b rest,
        )
        | inr unchanged ↦
            rw unchanged (0 ∷ sb.bmapstart ∷ ip'.addrs 12 ∷ bytes, omega (arith, few), same)
      ]

  pub writei-Changes :
      (devsw : ℕ → Option DevWrite) (src : ℕ → ℕ) (off n : ℕ) (ip : Inode) (disk : Disk)
      → n ≤ 1536
      → ip.type ≢ t_dev
      → IfOk (Changes 8 disk) (writei devsw sb src off n ip disk)
  unfolding writei
  writei-Changes devsw src off n ip disk small file =
      rw (ne→== ip.type t_dev file) (elim (Bool-cases (refuses ip.size off n)) [
        | inl e ↦ rw e ([], omega arith, λ b h. refl)
        | inr e ↦ rw e (
            bind-IfOk (Rounds sb 4 ip disk) (Changes 8 disk) (write_from n sb src 0 off n ip disk)
              (λ r. ok (wrote sb off n r))
              (write_from-Rounds n 4 src 0 off n ip disk (omega arith) (inr (omega (arith, small))))
              (λ r h. wrote-Changes off n 4 ip disk r h))
      ])
