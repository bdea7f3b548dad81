-- ===== src/File/Freeing.antt =====
-- fs.c: freeing the blocks of a file one after the other.
use graduation_prj.Base.{
  ℕ, ◌/◌, ◌%◌, ◌<◌, ◌≡◌, ◌≢◌, ◌⊎◌, inl, inr, refl, sym, ap, ◌∙◌, update_other, arith, ℕ_discrete,
  Bool-cases, ◌==◌, Result, ok, stop, Succeeds,
}
use mathlib.Core.Path.{subst}
use graduation_prj.Bitmap.Defs.{Disk, Superblock, bpb, bit, bblock, bfree}
use graduation_prj.Bitmap.Bits.{mark}
use graduation_prj.Bitmap.Blocks.{BfreeOutcome, bfree-BfreeOutcome}
use graduation_prj.File.Room.{Apart}
use graduation_prj.File.Slots.{IsMapped}

abbrev Frame : Superblock → Disk → ℕ → Result Disk → Type 0
Frame sb disk b (ok after) = (c : ℕ) → c ≢ bblock b sb → after c ≡ disk c
Frame sb disk b (stop _) = Unit

bfree-Frame : (sb : Superblock) (disk : Disk) (b : ℕ) → Frame sb disk b (bfree b sb disk)
unfolding bfree
bfree-Frame sb disk b =
    elim (Bool-cases (bit (disk (bblock b sb) (b % bpb / 8)) (b % bpb % 8) == 0)) [
      | inl h ↦ rw h tt
      | inr h ↦ rw h (λ c ne. update_other disk (bblock b sb) c _ (λ e. ne (sym e)))
    ]

-- The blocks `s i` for the `i` in the set are free, the marks of the others are as in `disk`, and so are
-- the blocks outside the bitmap.
pub record Freed (sb : Superblock) (disk : Disk) (s : ℕ → ℕ) (D : ℕ → Type 0) (after : Disk)
    : Type 0 where
  pub gone : (i : ℕ) → D i → s i ≢ 0 → mark sb after (s i) ≡ 0
  pub kept :
      (c : ℕ) → c < sb.size → ((i : ℕ) → D i → s i ≢ 0 → s i ≢ c) → mark sb after c ≡ mark sb disk c
  pub blocks : (b : ℕ) → Apart sb b → after b ≡ disk b

-- The set with one more.
abbrev pub Next : (ℕ → Type 0) → ℕ → ℕ → Type 0
Next D i j = D j ⊎ (j ≡ i)

module _ (sb : Superblock) (disk : Disk) (s : ℕ → ℕ) (mapped : IsMapped sb disk s) where
  -- A slot without a block.
  pub Freed-skip :
      (D : ℕ → Type 0) (i : ℕ) (after : Disk)
      → s i ≡ 0
      → Freed sb disk s D after
      → Freed sb disk s (Next D i) after
  Freed-skip D i after none f = record {
    gone = λ j d ne. elim d [ inl h ↦ f.gone j h ne | inr e ↦ absurd (ne (ap s e ∙ none)) ];
    kept = λ c lt h. f.kept c lt (λ j d. h j (inl d));
    blocks = f.blocks;
  }

  still_used :
      (D : ℕ → Type 0) (i : ℕ) (after : Disk)
      → (¬ D i)
      → s i ≢ 0
      → Freed sb disk s D after
      → mark sb after (s i) ≡ 1
  still_used D i after not ne f =
      f.kept (s i) (mapped.inside i ne) (λ j d set e. not (subst D (mapped.distinct j i set e) d))
      ∙ mapped.used i ne

  BfreeOutcome-Freed :
      (D : ℕ → Type 0) (i : ℕ) (after : Disk) (r : Result Disk)
      → (¬ D i)
      → s i ≢ 0
      → Freed sb disk s D after
      → BfreeOutcome sb after (s i) r
      → Frame sb after (s i) r
      → Succeeds (Freed sb disk s (Next D i)) r
  BfreeOutcome-Freed D i after (stop why) not ne f o frame =
      absurd (omega (arith, o.1, still_used D i after not ne f))
  BfreeOutcome-Freed D i after (ok last) not ne f (was, now, others) frame = record {
    gone = λ j d set. elim (ℕ_discrete (s j) (s i)) [
      | yes e ↦ ap (mark sb last) e ∙ now
      | no apart ↦ elim d [
        | inl h ↦ others (s j) apart ∙ f.gone j h set
        | inr e ↦ absurd (apart (ap s e))
      ]
    ];
    kept = λ c lt h. others c (λ e. h i (inr refl) ne (sym e)) ∙ f.kept c lt (λ j d. h j (inl d));
    blocks = λ b away. frame b (away (s i) (mapped.inside i ne)) ∙ f.blocks b away;
  }

  -- `bfree` of the block of a slot that is not in the set does not panic.
  pub bfree-Freed :
      (D : ℕ → Type 0) (i : ℕ) (after : Disk)
      → (¬ D i)
      → s i ≢ 0
      → Freed sb disk s D after
      → Succeeds (Freed sb disk s (Next D i)) (bfree (s i) sb after)
  bfree-Freed D i after not ne f =
      BfreeOutcome-Freed D i after (bfree (s i) sb after) not ne f
        (bfree-BfreeOutcome sb after (s i)) (bfree-Frame sb after (s i))

  pub Freed-same :
      (D E : ℕ → Type 0) (after : Disk)
      → ((j : ℕ) → D j → E j)
      → ((j : ℕ) → E j → D j)
      → Freed sb disk s D after
      → Freed sb disk s E after
  Freed-same D E after to from f = record {
    gone = λ i e. f.gone i (from i e);
    kept = λ c lt h. f.kept c lt (λ i d. h i (to i d));
    blocks = f.blocks;
  }
