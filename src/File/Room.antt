-- ===== src/File/Room.antt =====
-- How many blocks are free, and a balloc that has one.
use graduation_prj.Base.{
  total, total-less, total-zero, ℕ, suc, ◌-◌, ◌≤◌, ◌<◌, ◌≡◌, ◌≢◌, sym, ap, ◌∙◌, arith, Result, ok,
  stop, panic, ◌>>=◌,
}
use graduation_prj.Bitmap.Defs.{Disk, Superblock, bblock, balloc}
use graduation_prj.Bitmap.Bits.{mark}
use graduation_prj.Bitmap.Blocks.{Reserved, Taken, BallocOutcome, balloc-BallocOutcome}

-- The number of free blocks.
abbrev pub room : Superblock → Disk → ℕ
room sb disk = total sb.size (λ c. 1 - mark sb disk c)

-- The bitmap's blocks and the boot block are in use; block numbers are 32-bit.
pub record Sound (sb : Superblock) (disk : Disk) : Type 0 where
  pub reserved : Reserved sb disk
  pub bitmap_inside : (c : ℕ) → c < sb.size → bblock c sb < sb.size
  pub boot : mark sb disk 0 ≡ 1
  pub boot_inside : 0 < sb.size
  pub words : sb.size ≤ 4294967295

-- No block of the bitmap.
abbrev pub Apart : Superblock → ℕ → Type 0
Apart sb b = (c : ℕ) → c < sb.size → b ≢ bblock c sb

-- A call returns a value with the property, or panics for want of as many free blocks.
abbrev pub Returns {ℓ} : {A : Type ℓ} → ℕ → ℕ → (A → Type 0) → Result A → Type 0
Returns free need P (ok a) = P a
Returns free need P (stop s) = (s ≡ panic) × (free < need)

pub bind-Returns :
    {A B : Type 0} (free need : ℕ) (P : A → Type 0) (Q : B → Type 0) (m : Result A)
    (f : A → Result B)
    → Returns free need P m
    → ((a : A) → P a → Returns free need Q (f a))
    → Returns free need Q (m >>= f)
bind-Returns free need P Q (ok a) f r next = next a r
bind-Returns free need P Q (stop s) f r next = r

pub map-Returns :
    {A : Type 0} (free need : ℕ) (P Q : A → Type 0) (m : Result A)
    → ((a : A) → P a → Q a)
    → Returns free need P m
    → Returns free need Q m
map-Returns free need P Q (ok a) h r = h a r
map-Returns free need P Q (stop s) h r = r

pub weaken-Returns :
    {A : Type 0} (free need free' need' : ℕ) (P : A → Type 0) (m : Result A)
    → (free < need → free' < need')
    → Returns free need P m
    → Returns free' need' P m
weaken-Returns free need free' need' P (ok a) h r = r
weaken-Returns free need free' need' P (stop s) h r = (r.0, h r.1)

-- What a fresh block changes.
pub record Fresh (sb : Superblock) (disk : Disk) (n : ℕ) (after : Disk) : Type 0 where
  pub taken : Taken sb disk n after
  pub sound : Sound sb after
  pub nonzero : n ≢ 0
  pub not_bitmap : Apart sb n
  pub less : room sb disk ≡ suc (room sb after)

Taken-Fresh :
    (sb : Superblock) (disk : Disk) (n : ℕ) (after : Disk)
    → Sound sb disk
    → Taken sb disk n after
    → Fresh sb disk n after
Taken-Fresh sb disk n after s t =
    let nonzero : n ≢ 0 = λ e. omega (arith, t.free, s.boot, ap (mark sb disk) e) in
    let apart : Apart sb n =
      λ c lt e. omega (arith, t.free, s.reserved c lt, ap (mark sb disk) e) in
    record {
      taken = t;
      sound = record {
        reserved = λ c lt.
            t.others (bblock c sb) (s.bitmap_inside c lt) (λ e. apart c lt (sym e))
            ∙ s.reserved c lt;
        bitmap_inside = s.bitmap_inside;
        boot = t.others 0 s.boot_inside (λ e. nonzero (sym e)) ∙ s.boot;
        boot_inside = s.boot_inside;
        words = s.words;
      };
      nonzero = nonzero;
      not_bitmap = apart;
      less =
          total-less sb.size n (λ c. 1 - mark sb disk c) (λ c. 1 - mark sb after c) t.inside
            (omega (arith, t.free, t.used)) (λ c lt ne. ap (λ m. 1 - m) (sym (t.others c lt ne)));
    }

BallocOutcome-Returns :
    (sb : Superblock) (disk : Disk) (r : Result (ℕ × Disk))
    → Sound sb disk
    → BallocOutcome sb disk r
    → Returns (room sb disk) 1 (λ (n, after). Fresh sb disk n after) r
BallocOutcome-Returns sb disk (ok (n, after)) s t = Taken-Fresh sb disk n after s t
BallocOutcome-Returns sb disk (stop why) s t = (
  t.0,
  omega (arith, total-zero sb.size (λ c. 1 - mark sb disk c) (λ c lt. omega (arith, t.1 c lt))),
)

pub balloc-Returns :
    (sb : Superblock) (disk : Disk)
    → Sound sb disk
    → Returns (room sb disk) 1 (λ (n, after). Fresh sb disk n after) (balloc sb disk)
balloc-Returns sb disk s =
    BallocOutcome-Returns sb disk (balloc sb disk) s (balloc-BallocOutcome sb disk s.reserved)
