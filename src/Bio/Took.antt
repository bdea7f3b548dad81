-- ===== src/Bio/Took.antt =====
-- bio.c: which buffer `bget` takes, and how it leaves it.
use graduation_prj.Base.{
  ℕ, ◌+◌, ◌%◌, ◌^◌, ◌≡◌, ◌≢◌, ◌⊎◌, inl, inr, refl, ap, true, false, List, [], ◌∷◌, ◌++◌, Option,
  none, some, arith, Bool-cases, ◌==◌, ==→eq, ==→ne, if◌then◌else◌, All, Result, ok, stop,
}
use graduation_prj.Bio.Defs.{
  Buf, caches, is_unused, find_cached, take_over, recycle, bget, or_panic, or_recycle,
}

-- The buffer is of the block.
abbrev pub IsOf : ℕ → ℕ → Buf → Type 0
IsOf dev blockno b = (b.dev ≡ dev) × (b.blockno ≡ blockno)

abbrev pub InUse : Buf → Type 0
InUse b = (b.refcnt ≢ 0) ⊎ (b.dirty ≡ true)

-- A buffer of the block, with one reference more.
abbrev pub Reused : ℕ → ℕ → Buf → Buf → Type 0
Reused dev blockno old b =
    IsOf dev blockno old × (b ≡ record old { refcnt = (old.refcnt + 1) % 2 ^ 32 })

-- The buffer least recently used of those that are neither in use nor modified, made empty for the block.
abbrev pub Emptied : ℕ → ℕ → Buf → List Buf → Buf → Type 0
Emptied dev blockno old older b =
    (old.refcnt ≡ 0)
    × (old.dirty ≡ false)
    × All InUse older
    × IsOf dev blockno b
    × (b.id ≡ old.id)
    × (b.refcnt ≡ 1)
    × (b.valid ≡ false)
    × (b.dirty ≡ false)

-- The buffer `b` stands in the place of one buffer of the list, and the others are as they were.
pub record Took (dev blockno : ℕ) (bs : List Buf) (b : Buf) (after : List Buf) : Type 0 where
  pub newer : List Buf
  pub old : Buf
  pub older : List Buf
  pub from : bs ≡ newer ++ (old ∷ older)
  pub to : after ≡ newer ++ (b ∷ older)
  pub how : Reused dev blockno old b ⊎ Emptied dev blockno old older b

Took-later :
    (dev blockno : ℕ) (c : Buf) (bs : List Buf) (b : Buf) (after : List Buf)
    → Took dev blockno bs b after
    → Took dev blockno (c ∷ bs) b (c ∷ after)
Took-later dev blockno c bs b after t = record {
  newer = c ∷ t.newer;
  old = t.old;
  older = t.older;
  from = ap (λ l. c ∷ l) t.from;
  to = ap (λ l. c ∷ l) t.to;
  how = t.how;
}

abbrev Hit : ℕ → ℕ → List Buf → Option (Buf × List Buf) → Type 0
Hit dev blockno bs none = Unit
Hit dev blockno bs (some (b, after)) = Took dev blockno bs b after

caches-IsOf : (dev blockno : ℕ) (b : Buf) → caches dev blockno b ≡ true → IsOf dev blockno b
caches-IsOf dev blockno b h =
    (==→eq b.dev dev (ground (arith, h)), ==→eq b.blockno blockno (ground (arith, h)))

Hit-later :
    (dev blockno : ℕ) (b : Buf) (bs : List Buf) (found : Option (Buf × List Buf))
    → Hit dev blockno bs found
    → Hit dev blockno (b ∷ bs) (elim found [ none ↦ none | some (c, after) ↦ some (c, b ∷ after) ])
Hit-later dev blockno b bs none h = tt
Hit-later dev blockno b bs (some (c, after)) h = Took-later dev blockno b bs c after h

find_cached-Hit :
    (dev blockno : ℕ) (bs : List Buf) → Hit dev blockno bs (find_cached dev blockno bs)
unfolding find_cached
find_cached-Hit dev blockno [] = tt
find_cached-Hit dev blockno (b ∷ bs) = elim (Bool-cases (caches dev blockno b)) [
  | inl h ↦ rw h (record {
    newer = [];
    old = b;
    older = bs;
    from = refl;
    to = refl;
    how = inl (caches-IsOf dev blockno b h, refl);
  })
  | inr h ↦
      rw h
        (Hit-later dev blockno b bs (find_cached dev blockno bs) (find_cached-Hit dev blockno bs))
]

abbrev Last : ℕ → ℕ → List Buf → Option (Buf × List Buf) → Type 0
Last dev blockno bs none = All InUse bs
Last dev blockno bs (some (b, after)) = Took dev blockno bs b after

unused-Emptied :
    (dev blockno : ℕ) (b : Buf) (bs : List Buf)
    → is_unused b ≡ true
    → All InUse bs
    → Emptied dev blockno b bs (take_over dev blockno b)
unused-Emptied dev blockno b bs h busy = (
  ==→eq b.refcnt 0 (ground (arith, h)),
  ground (arith, h),
  busy,
  (refl, refl),
  refl,
  refl,
  refl,
  refl,
)

used-InUse : (b : Buf) → is_unused b ≡ false → InUse b
used-InUse b h = elim (Bool-cases (b.refcnt == 0)) [
  | inl zero_refs ↦ inr (ground (arith, h, zero_refs))
  | inr refs ↦ inl (==→ne b.refcnt 0 refs)
]

Last-here :
    (dev blockno : ℕ) (b : Buf) (bs : List Buf) (found : Option (Buf × List Buf))
    → Last dev blockno bs found
    → Last dev blockno (b ∷ bs) (elim found [
      | some (c, after) ↦ some (c, b ∷ after)
      | none ↦
          if is_unused b then some (take_over dev blockno b, take_over dev blockno b ∷ bs) else none
    ])
Last-here dev blockno b bs (some (c, after)) r = Took-later dev blockno b bs c after r
Last-here dev blockno b bs none r = elim (Bool-cases (is_unused b)) [
  | inl h ↦ rw h (record {
    newer = [];
    old = b;
    older = bs;
    from = refl;
    to = refl;
    how = inr (unused-Emptied dev blockno b bs h r);
  })
  | inr h ↦ rw h (used-InUse b h, r)
]

recycle-Last : (dev blockno : ℕ) (bs : List Buf) → Last dev blockno bs (recycle dev blockno bs)
unfolding recycle
recycle-Last dev blockno [] = tt
recycle-Last dev blockno (b ∷ bs) =
    Last-here dev blockno b bs (recycle dev blockno bs) (recycle-Last dev blockno bs)

abbrev pub TookOutcome : ℕ → ℕ → List Buf → Result (Buf × List Buf) → Type 0
TookOutcome dev blockno bs (ok (b, after)) = Took dev blockno bs b after
TookOutcome dev blockno bs (stop why) = All InUse bs

or_panic-TookOutcome :
    (dev blockno : ℕ) (bs : List Buf) (found : Option (Buf × List Buf))
    → Last dev blockno bs found
    → TookOutcome dev blockno bs (or_panic found)
or_panic-TookOutcome dev blockno bs none r = r
or_panic-TookOutcome dev blockno bs (some (b, after)) r = r

or_recycle-TookOutcome :
    (dev blockno : ℕ) (bs : List Buf) (found : Option (Buf × List Buf))
    → Hit dev blockno bs found
    → TookOutcome dev blockno bs (or_recycle dev blockno bs found)
or_recycle-TookOutcome dev blockno bs none h =
    or_panic-TookOutcome dev blockno bs (recycle dev blockno bs) (recycle-Last dev blockno bs)
or_recycle-TookOutcome dev blockno bs (some (b, after)) h = h

pub bget-TookOutcome :
    (dev blockno : ℕ) (bs : List Buf) → TookOutcome dev blockno bs (bget dev blockno bs)
unfolding bget
bget-TookOutcome dev blockno bs =
    or_recycle-TookOutcome dev blockno bs (find_cached dev blockno bs)
      (find_cached-Hit dev blockno bs)
