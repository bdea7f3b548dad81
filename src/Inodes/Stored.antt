-- ===== src/Inodes/Stored.antt =====
-- fs.c: what iupdate writes to an inode's place on the disk, ilock reads.
use graduation_prj.Base.{
  ℕ, zero, suc, ◌+◌, ◌*◌, ◌/◌, ◌%◌, ◌^◌, ◌≤◌, ◌<◌, ◌≡◌, ◌≢◌, ◌⊎◌, inl, inr, refl, sym, ap, ◌∙◌,
  update, update_same, update_other, arith, ℕ_discrete, dec_lt,
}
use mathlib.Core.Path.{subst}
use graduation_prj.Bitmap.Defs.{Disk, Superblock}
use graduation_prj.File.Words.{
  get_word, get_half, put_half, put_word, put_word-other, get_word-put_word,
}
use graduation_prj.File.Defs.{Inode, ipb, iblock, iupdate, put_addrs, put_dinode}
use graduation_prj.Inodes.Defs.{get_dinode, read_inode}

get_word-cong :
    (f g : ℕ → ℕ) (o : ℕ) → ((i : ℕ) → o ≤ i → i < o + 4 → f i ≡ g i) → get_word f o ≡ get_word g o
get_word-cong f g o h = omega (
  arith,
  h o (omega arith) (omega arith),
  h (o + 1) (omega arith) (omega arith),
  h (o + 2) (omega arith) (omega arith),
  h (o + 3) (omega arith) (omega arith),
)

get_half-cong :
    (f g : ℕ → ℕ) (o : ℕ) → ((i : ℕ) → o ≤ i → i < o + 2 → f i ≡ g i) → get_half f o ≡ get_half g o
get_half-cong f g o h =
    omega (arith, h o (omega arith) (omega arith), h (o + 1) (omega arith) (omega arith))

put_addrs-other :
    (n k o : ℕ) (addrs bytes : ℕ → ℕ) (i : ℕ)
    → (i < o + 4 * k) ⊎ (o + 4 * (k + n) ≤ i)
    → put_addrs n k o addrs bytes i ≡ bytes i
unfolding put_addrs
put_addrs-other zero k o addrs bytes i out = refl
put_addrs-other (suc n) k o addrs bytes i out =
    put_addrs-other n (k + 1) o addrs (put_word (o + 4 * k) (addrs k) bytes) i (ground (arith, out))
    ∙ put_word-other (o + 4 * k) (addrs k) bytes i (ground (arith, out))

get_word-put_addrs :
    (n k o : ℕ) (addrs bytes : ℕ → ℕ) (j : ℕ)
    → k ≤ j
    → j < k + n
    → addrs j < 2 ^ 32
    → get_word (put_addrs n k o addrs bytes) (o + 4 * j) ≡ addrs j
unfolding put_addrs
get_word-put_addrs zero k o addrs bytes j le lt small = absurd (omega (arith, le, lt))
get_word-put_addrs (suc n) k o addrs bytes j le lt small = elim (ℕ_discrete k j) [
  | yes e ↦
      subst
        (λ i.
          get_word (put_addrs n (k + 1) o addrs (put_word (o + 4 * k) (addrs k) bytes)) (o + 4 * i)
          ≡ addrs i)
        e
        (get_word-cong (put_addrs n (k + 1) o addrs (put_word (o + 4 * k) (addrs k) bytes))
            (put_word (o + 4 * k) (addrs k) bytes) (o + 4 * k)
            (λ i _ below.
              put_addrs-other n (k + 1) o addrs (put_word (o + 4 * k) (addrs k) bytes) i
                (inl (omega (arith, below))))
          ∙ get_word-put_word (o + 4 * k) (addrs k) bytes
              (subst (λ i. addrs i < 2 ^ 32) (sym e) small))
  | no ne ↦
      get_word-put_addrs n (k + 1) o addrs (put_word (o + 4 * k) (addrs k) bytes) j
        (omega (arith, le, ne)) (omega (arith, lt)) small
]

-- The first twelve bytes.
abbrev head : ℕ → Inode → (ℕ → ℕ) → ℕ → ℕ
head o ip bytes = put_word (o + 8) ip.size (
    put_half (o + 6) ip.nlink
      (put_half (o + 4) ip.minor (put_half (o + 2) ip.major (put_half o ip.type bytes))))

head-type :
    (o : ℕ) (ip : Inode) (bytes : ℕ → ℕ) → ip.type < 2 ^ 16 → get_half (head o ip bytes) o ≡ ip.type
unfolding put_word put_half
head-type o ip bytes lt = ground (arith, lt)

head-major :
    (o : ℕ) (ip : Inode) (bytes : ℕ → ℕ)
    → ip.major < 2 ^ 16
    → get_half (head o ip bytes) (o + 2) ≡ ip.major
unfolding put_word put_half
head-major o ip bytes lt = ground (arith, lt)

head-minor :
    (o : ℕ) (ip : Inode) (bytes : ℕ → ℕ)
    → ip.minor < 2 ^ 16
    → get_half (head o ip bytes) (o + 4) ≡ ip.minor
unfolding put_word put_half
head-minor o ip bytes lt = ground (arith, lt)

head-nlink :
    (o : ℕ) (ip : Inode) (bytes : ℕ → ℕ)
    → ip.nlink < 2 ^ 16
    → get_half (head o ip bytes) (o + 6) ≡ ip.nlink
unfolding put_word put_half
head-nlink o ip bytes lt = ground (arith, lt)

-- The numbers of the inode fit their fields.
pub record IsSized (ip : Inode) : Type 0 where
  pub type : ip.type < 2 ^ 16
  pub major : ip.major < 2 ^ 16
  pub minor : ip.minor < 2 ^ 16
  pub nlink : ip.nlink < 2 ^ 16
  pub size : ip.size < 2 ^ 32
  pub addrs : (k : ℕ) → k < 13 → ip.addrs k < 2 ^ 32

-- Two copies of an inode say the same.
pub record Agrees (a b : Inode) : Type 0 where
  pub inum : a.inum ≡ b.inum
  pub type : a.type ≡ b.type
  pub major : a.major ≡ b.major
  pub minor : a.minor ≡ b.minor
  pub nlink : a.nlink ≡ b.nlink
  pub size : a.size ≡ b.size
  pub addrs : (k : ℕ) → k < 13 → a.addrs k ≡ b.addrs k

get_dinode-addrs :
    (o : ℕ) (bytes : ℕ → ℕ) (ip : Inode) (k : ℕ)
    → k < 13
    → (get_dinode o bytes ip).addrs k ≡ get_word bytes (o + 12 + 4 * k)
get_dinode-addrs o bytes ip k lt = ground (arith, lt)

get_dinode-Agrees :
    (o : ℕ) (f g : ℕ → ℕ) (ip : Inode)
    → ((i : ℕ) → o ≤ i → i < o + 64 → f i ≡ g i)
    → Agrees (get_dinode o f ip) (get_dinode o g ip)
get_dinode-Agrees o f g ip h = record {
  inum = refl;
  type = get_half-cong f g o (λ i le lt. h i le (omega (arith, lt)));
  major = get_half-cong f g (o + 2) (λ i le lt. h i (omega (arith, le)) (omega (arith, lt)));
  minor = get_half-cong f g (o + 4) (λ i le lt. h i (omega (arith, le)) (omega (arith, lt)));
  nlink = get_half-cong f g (o + 6) (λ i le lt. h i (omega (arith, le)) (omega (arith, lt)));
  size = get_word-cong f g (o + 8) (λ i le lt. h i (omega (arith, le)) (omega (arith, lt)));
  addrs = λ k small.
      get_dinode-addrs o f ip k small
      ∙ get_word-cong f g (o + 12 + 4 * k)
          (λ i le lt. h i (omega (arith, le)) (omega (arith, lt, small)))
      ∙ sym (get_dinode-addrs o g ip k small);
}

-- The first twelve bytes, then the numbers of the blocks.
put_dinode-head :
    (o : ℕ) (ip : Inode) (bytes : ℕ → ℕ) (i : ℕ)
    → i < o + 12
    → put_dinode o ip bytes i ≡ head o ip bytes i
unfolding put_dinode
put_dinode-head o ip bytes i lt =
    put_addrs-other 13 0 (o + 12) ip.addrs (head o ip bytes) i (inl (omega (arith, lt)))

head-outside :
    (o : ℕ) (ip : Inode) (bytes : ℕ → ℕ) (i : ℕ)
    → (i < o) ⊎ (o + 12 ≤ i)
    → head o ip bytes i ≡ bytes i
unfolding put_word put_half
head-outside o ip bytes i out = ground (arith, out)

put_dinode-outside :
    (o : ℕ) (ip : Inode) (bytes : ℕ → ℕ) (i : ℕ)
    → (i < o) ⊎ (o + 64 ≤ i)
    → put_dinode o ip bytes i ≡ bytes i
unfolding put_dinode
put_dinode-outside o ip bytes i out =
    put_addrs-other 13 0 (o + 12) ip.addrs (head o ip bytes) i (ground (arith, out))
    ∙ head-outside o ip bytes i (ground (arith, out))

get_dinode-put_dinode :
    (o : ℕ) (ip stale : Inode) (bytes : ℕ → ℕ)
    → IsSized ip
    → stale.inum ≡ ip.inum
    → Agrees (get_dinode o (put_dinode o ip bytes) stale) ip
unfolding put_dinode
get_dinode-put_dinode o ip stale bytes sized same =
    let here = put_dinode o ip bytes in
    let top = head o ip bytes in
    let in_head = put_dinode-head o ip bytes in
    record {
      inum = same;
      type =
          get_half-cong here top o (λ i _ lt. in_head i (omega (arith, lt)))
          ∙ head-type o ip bytes sized.type;
      major =
          get_half-cong here top (o + 2) (λ i _ lt. in_head i (omega (arith, lt)))
          ∙ head-major o ip bytes sized.major;
      minor =
          get_half-cong here top (o + 4) (λ i _ lt. in_head i (omega (arith, lt)))
          ∙ head-minor o ip bytes sized.minor;
      nlink =
          get_half-cong here top (o + 6) (λ i _ lt. in_head i (omega (arith, lt)))
          ∙ head-nlink o ip bytes sized.nlink;
      size =
          get_word-cong here top (o + 8) (λ i _ lt. in_head i (omega (arith, lt)))
          ∙ get_word-put_word (o + 8) ip.size _ sized.size;
      addrs = λ k lt.
          get_dinode-addrs o here stale k lt
          ∙ get_word-put_addrs 13 0 (o + 12) ip.addrs top k (omega arith) lt (sized.addrs k lt);
    }

-- Two inodes of one block are at different places.
other_place :
    (a b start i : ℕ)
    → b ≢ a
    → a / 8 + start ≡ b / 8 + start
    → 64 * (b % 8) ≤ i
    → i < 64 * (b % 8) + 64
    → (i < 64 * (a % 8)) ⊎ (64 * (a % 8) + 64 ≤ i)
other_place a b start i ne e le lt = elim (dec_lt i (64 * (a % 8))) [
  | yes below ↦ inl below
  | no above ↦ inr (omega (arith, ne, e, le, lt, above))
]

-- After iupdate wrote an inode whose numbers fit their fields, ilock reads the same inode back, and reads
-- every other inode as it did before, those in the same block too.
pub read_inode-iupdate :
    (sb : Superblock) (disk : Disk) (ip stale : Inode)
    → IsSized ip
    → ((stale.inum ≡ ip.inum) → Agrees (read_inode sb (iupdate sb ip disk) stale) ip)
      × ((stale.inum ≢ ip.inum)
          → Agrees (read_inode sb (iupdate sb ip disk) stale) (read_inode sb disk stale))
unfolding iupdate
read_inode-iupdate sb disk ip stale sized =
    let block = iblock ip.inum sb in
    let written = put_dinode (64 * (ip.inum % ipb)) ip (disk block) in
    (
      λ same.
          let at_block : update disk block written (iblock stale.inum sb) ≡ written =
            ap (λ n. update disk block written (iblock n sb)) same
            ∙ update_same disk block written in
          let at_byte : 64 * (stale.inum % ipb) ≡ 64 * (ip.inum % ipb) =
            ap (λ n. 64 * (n % ipb)) same in
          rw at_block (
            rw at_byte
              (get_dinode-put_dinode (64 * (ip.inum % ipb)) ip stale (disk block) sized same)),
      λ other.
          get_dinode-Agrees (64 * (stale.inum % ipb))
            (update disk block written (iblock stale.inum sb)) (disk (iblock stale.inum sb)) stale
            (λ i le lt. elim (ℕ_discrete block (iblock stale.inum sb)) [
              | no apart ↦
                  ap (λ bytes. bytes i)
                    (update_other disk block (iblock stale.inum sb) written apart)
              | yes e ↦
                  ap (λ b. update disk block written b i) (sym e)
                  ∙ ap (λ bytes. bytes i) (update_same disk block written)
                  ∙ put_dinode-outside (64 * (ip.inum % ipb)) ip (disk block) i
                      (other_place ip.inum stale.inum sb.inodestart i other e le lt)
                  ∙ ap (λ b. disk b i) e
            ]),
    )
