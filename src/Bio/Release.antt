-- ===== src/Bio/Release.antt =====
-- What `brelse` does to the list, and the cache under every order of its calls.
use graduation_prj.Base.{
  ℕ, ◌+◌, ◌-◌, ◌<◌, ◌≤◌, ◌≡◌, ◌≢◌, ◌⊎◌, inl, inr, ◌%◌, ◌^◌, refl, ap, ◌∙◌, Bool, false, List, [],
  ◌∷◌, ◌++◌, Option, none, some, arith, Bool-cases, eq→==, ne→==, ==→eq, ==→ne, ◌==◌, if◌then◌else◌,
  All, ok,
}
use mathlib.Core.Path.{subst}
use graduation_prj.Bio.Defs.{Buf, caches, bget, binit, unlink_buf, lower_refcnt, to_front, brelse}
use graduation_prj.Bio.Keys.{weight, copies, IsDistinct, binit-IsDistinct}
use graduation_prj.Bio.Get.{GetOutcome, bget-GetOutcome}

lower_refcnt-copies : (id d n : ℕ) (bs : List Buf) → copies d n (lower_refcnt id bs) ≡ copies d n bs
unfolding lower_refcnt
lower_refcnt-copies id d n [] = refl
lower_refcnt-copies id d n (b ∷ bs) = elim (Bool-cases (b.id == id)) [
  | inl h ↦ rw h refl
  | inr h ↦ rw h (ap (λ m. weight (caches d n b) + m) (lower_refcnt-copies id d n bs))
]

abbrev Unlinked : List Buf → Option (Buf × List Buf) → Type 0
Unlinked bs none = bs ≡ bs
Unlinked bs (some (b, after)) = (d n : ℕ) → copies d n (b ∷ after) ≡ copies d n bs

Unlinked-later :
    (b : Buf) (bs : List Buf) (found : Option (Buf × List Buf))
    → Unlinked bs found
    → Unlinked (b ∷ bs) (elim found [ none ↦ none | some (c, after) ↦ some (c, b ∷ after) ])
Unlinked-later b bs none u = refl
Unlinked-later b bs (some (c, after)) u = λ d n. omega (arith, u d n)

unlink_buf-Unlinked : (id : ℕ) (bs : List Buf) → Unlinked bs (unlink_buf id bs)
unfolding unlink_buf
unlink_buf-Unlinked id [] = refl
unlink_buf-Unlinked id (b ∷ bs) = elim (Bool-cases (b.id == id)) [
  | inl h ↦ rw h (λ d n. refl)
  | inr h ↦ rw h (Unlinked-later b bs (unlink_buf id bs) (unlink_buf-Unlinked id bs))
]

to_front-copies :
    (d n : ℕ) (bs : List Buf) (found : Option (Buf × List Buf))
    → Unlinked bs found
    → copies d n (to_front bs found) ≡ copies d n bs
to_front-copies d n bs none u = refl
to_front-copies d n bs (some (b, after)) u = elim (Bool-cases (b.refcnt == 0)) [
  | inl h ↦ rw h (u d n)
  | inr h ↦ rw h refl
]

brelse-copies : (id d n : ℕ) (bs : List Buf) → copies d n (brelse id bs) ≡ copies d n bs
unfolding brelse
brelse-copies id d n bs =
    to_front-copies d n (lower_refcnt id bs) (unlink_buf id (lower_refcnt id bs))
      (unlink_buf-Unlinked id (lower_refcnt id bs))
    ∙ lower_refcnt-copies id d n bs

-- The flags that `bread`, `bwrite` and the log set.
abbrev pub mark : ℕ → Bool → Bool → List Buf → List Buf
mark id valid dirty [] = []
mark id valid dirty (b ∷ bs) =
    (if b.id == id then record b { valid = valid; dirty = dirty } else b) ∷ mark id valid dirty bs

mark-copies :
    (id : ℕ) (valid dirty : Bool) (d n : ℕ) (bs : List Buf)
    → copies d n (mark id valid dirty bs) ≡ copies d n bs
mark-copies id valid dirty d n [] = refl
mark-copies id valid dirty d n (b ∷ bs) =
    let rest = mark-copies id valid dirty d n bs in
    elim (Bool-cases (b.id == id)) [
      | inl h ↦ rw h (ap (λ m. weight (caches d n b) + m) rest)
      | inr h ↦ rw h (ap (λ m. weight (caches d n b) + m) rest)
    ]

pub data Step : List Buf → List Buf → Type 0 where
  gets :
      (bs after : List Buf) (dev blockno : ℕ) (b : Buf)
      → dev ≢ 0
      → bget dev blockno bs ≡ ok (b, after)
      → Step bs after
  releases : (bs : List Buf) (id : ℕ) → Step bs (brelse id bs)
  marks : (bs : List Buf) (id : ℕ) (valid dirty : Bool) → Step bs (mark id valid dirty bs)

pub data Reach : List Buf → List Buf → Type 0 where
  here : (bs : List Buf) → Reach bs bs
  later : {bs cs ds : List Buf} → Reach bs cs → Step cs ds → Reach bs ds

Step-IsDistinct : {bs cs : List Buf} → Step bs cs → IsDistinct bs → IsDistinct cs
Step-IsDistinct (gets bs after dev blockno b ne e) distinct =
    (subst (GetOutcome dev blockno bs) e (bget-GetOutcome dev blockno bs ne distinct)).2
Step-IsDistinct (releases bs id) distinct =
    λ d n ne. omega (arith, brelse-copies id d n bs, distinct d n ne)
Step-IsDistinct (marks bs id valid dirty) distinct =
    λ d n ne. omega (arith, mark-copies id valid dirty d n bs, distinct d n ne)

Reach-keeps : {bs cs : List Buf} → Reach bs cs → IsDistinct bs → IsDistinct cs
Reach-keeps (here _) distinct = distinct
Reach-keeps (later r step) distinct = Step-IsDistinct step (Reach-keeps r distinct)

-- From the list that `binit` makes, calls of `bget` for blocks of real devices, calls of `brelse` and
-- changes of flags, in every order, lead only to lists in which at most one buffer holds any block.
pub Reach-IsDistinct : (n : ℕ) (bs : List Buf) → Reach (binit n) bs → IsDistinct bs
Reach-IsDistinct n bs r = Reach-keeps r (binit-IsDistinct n)

module _ (id : ℕ) (b : Buf) (after : List Buf) (same : b.id ≡ id) where
  abbrev lowered : Buf
  lowered = record b { refcnt = (b.refcnt + 2 ^ 32 - 1) % 2 ^ 32 }

  lower_refcnt-at :
      (before : List Buf)
      → All (λ c. c.id ≢ id) before
      → lower_refcnt id (before ++ (b ∷ after)) ≡ before ++ (lowered ∷ after)
  unfolding lower_refcnt
  lower_refcnt-at [] other = rw (eq→== b.id id same) refl
  lower_refcnt-at (c ∷ cs) other =
      rw (ne→== c.id id other.0) (ap (λ xs. c ∷ xs) (lower_refcnt-at cs other.1))

  unlink_buf-at :
      (before : List Buf)
      → All (λ c. c.id ≢ id) before
      → unlink_buf id (before ++ (lowered ∷ after)) ≡ some (lowered, before ++ after)
  unfolding unlink_buf
  unlink_buf-at [] other = rw (eq→== b.id id same) refl
  unlink_buf-at (c ∷ cs) other = rw (ne→== c.id id other.0) (rw (unlink_buf-at cs other.1) refl)

  brelse-to_front :
      (before : List Buf)
      → All (λ c. c.id ≢ id) before
      → brelse id (before ++ (b ∷ after))
        ≡ to_front (before ++ (lowered ∷ after)) (some (lowered, before ++ after))
  unfolding brelse
  brelse-to_front before other =
      rw (lower_refcnt-at before other)
        (ap (to_front (before ++ (lowered ∷ after))) (unlink_buf-at before other))

to_front-last :
    (b : Buf) (xs ys : List Buf)
    → b.refcnt ≡ 0
    → to_front xs (some (b, ys)) ≡ record b { refcnt = 0 } ∷ ys
to_front-last b xs ys e = rw (eq→== b.refcnt 0 e) (ap (λ r. record b { refcnt = r } ∷ ys) e)

to_front-shared :
    (b : Buf) (xs ys : List Buf) → (b.refcnt == 0) ≡ false → to_front xs (some (b, ys)) ≡ xs
to_front-shared b xs ys h = rw h refl

-- `brelse` of a buffer at any place of the list, no other before it with its address: the buffer
-- whose only reference this was goes to the head, the others keeping their order; with more
-- references it keeps its place and has one less.
pub brelse_lem :
    (id : ℕ) (before : List Buf) (b : Buf) (after : List Buf)
    → b.id ≡ id
    → All (λ c. c.id ≢ id) before
    → 1 ≤ b.refcnt
    → b.refcnt < 2 ^ 32
    → ((b.refcnt ≡ 1)
        × (brelse id (before ++ (b ∷ after)) ≡ record b { refcnt = 0 } ∷ (before ++ after)))
      ⊎ ((1 < b.refcnt)
          × (brelse id (before ++ (b ∷ after))
              ≡ before ++ (record b { refcnt = b.refcnt - 1 } ∷ after)))
brelse_lem id before b after same other pos bound =
    let less : (b.refcnt + 2 ^ 32 - 1) % 2 ^ 32 ≡ b.refcnt - 1 = omega arith in
    let moved =
      brelse-to_front id b after same before other
      ∙ ap
          (λ r.
            to_front (before ++ (record b { refcnt = r } ∷ after))
              (some (record b { refcnt = r }, before ++ after)))
          less in
    elim (Bool-cases (b.refcnt - 1 == 0)) [
      | inl h ↦
          let one : b.refcnt ≡ 1 = omega (arith, ==→eq (b.refcnt - 1) 0 h) in
          inl (
            one,
            moved
                ∙ to_front-last (record b { refcnt = b.refcnt - 1 })
                    (before ++ (record b { refcnt = b.refcnt - 1 } ∷ after)) (before ++ after)
                    (==→eq (b.refcnt - 1) 0 h),
          )
      | inr h ↦ inr (
        omega (arith, ==→ne (b.refcnt - 1) 0 h),
        moved
            ∙ to_front-shared (record b { refcnt = b.refcnt - 1 })
                (before ++ (record b { refcnt = b.refcnt - 1 } ∷ after)) (before ++ after) h,
      )
    ]
