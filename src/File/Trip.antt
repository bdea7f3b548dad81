-- ===== src/File/Trip.antt =====
-- What `writei` wrote, `readi` reads.
use graduation_prj.Base.{
  ℕ, zero, suc, ◌+◌, ◌-◌, ◌*◌, ◌≤◌, ◌<◌, ◌≡◌, ◌≢◌, inr, refl, sym, ap, ap₂, ◌∙◌, Option, some, ◌∷◌,
  arith, ok,
}
use mathlib.Core.Path.{subst}
use graduation_prj.Bitmap.Defs.{Disk, Superblock}
use graduation_prj.File.Defs.{Inode, slice, readi, writei, t_dev, DevRead, DevWrite}
use graduation_prj.File.Room.{Returns, room}
use graduation_prj.File.Slots.{slot, IsMapped}
use graduation_prj.File.Contents.{content}
use graduation_prj.File.Writei.{Placed, Written, larger, writei-Returns}
use graduation_prj.File.Read.{contents, available, readi_lem}

contents-slice :
    (addrs : ℕ → ℕ) (disk : Disk) (src : ℕ → ℕ) (n off i : ℕ)
    → ((p : ℕ) → off ≤ p → p < off + n → content addrs disk p ≡ src (i + (p - off)))
    → contents addrs disk off n ≡ slice src i n
contents-slice addrs disk src zero off i h = refl
contents-slice addrs disk src (suc n) off i h =
    ap₂ ◌∷◌ (h off (omega arith) (omega arith) ∙ ap src (omega arith)) (
      contents-slice addrs disk src n (off + 1) (i + 1) (λ p low high.
        h p (omega (arith, low)) (omega (arith, high)) ∙ ap src (omega (arith, low))))

all_available : (size size' off n : ℕ) → size' ≡ larger size (off + n) → available size' off n ≡ n
all_available size size' off n e = ground (arith, e)

-- The bytes that a successful `writei` wrote to a file are what `readi` then returns for the same
-- place, and the reading changes nothing. The inode is no device, its blocks are all in use and
-- different, and its own block is apart from them.
pub readi-writei :
    (reads : ℕ → Option DevRead) (writes : ℕ → Option DevWrite) (sb : Superblock) (src : ℕ → ℕ)
    (off n : ℕ) (ip : Inode) (disk : Disk) {res : Option ℕ} {ip' : Inode} {disk' : Disk}
    → ip.type ≢ t_dev
    → off ≤ ip.size
    → off + n ≤ 71680
    → IsMapped sb disk (slot ip.addrs disk)
    → Placed sb ip disk
    → writei writes sb src off n ip disk ≡ ok (res, ip', disk')
    → readi reads sb off n ip' disk' ≡ ok (some (slice src 0 n), ip', disk')
readi-writei reads writes sb src off n ip disk {res} {ip'} {disk'} file le max m home e =
    let w : Written sb src off n ip disk (res, ip', disk') =
      subst (Returns (room sb disk) (2 * 140) (Written sb src off n ip disk)) e (
        writei-Returns writes sb src off n 140 ip disk file le max (inr (omega (arith, max))) m
          home) in
    let all = all_available ip.size ip'.size off n w.size in
    readi_lem reads sb off n ip' disk' (λ t. file (sym w.type ∙ t)) (long ip.size ip'.size w.size)
      (omega (arith, max)) (omega (arith, all, max))
      (λ p low high. w.filled p low (omega (arith, all, high)))
    ∙ ap (λ k. ok (some (contents ip'.addrs disk' off k), ip', disk')) all
    ∙ ap (λ bytes. ok (some bytes, ip', disk'))
        (contents-slice ip'.addrs disk' src n off 0
          (λ p low high. w.written p low high ∙ ap src (omega arith)))
  where
    long : (size size' : ℕ) → size' ≡ larger size (off + n) → off ≤ size'
    long size size' s = ground (arith, s)
