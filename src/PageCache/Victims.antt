-- ===== src/PageCache/Victims.antt =====
-- Which page each policy of the page cache chooses.
use graduation_prj.Base.{
  ℕ, zero, suc, ◌+◌, ◌%◌, ◌<◌, ◌≤◌, ◌≡◌, ◌≢◌, ◌⊎◌, inl, inr, refl, ap, Option, none, some, ltb,
  ltb→lt, ltb→le, ◌==◌, if◌then◌else◌, arith, Bool-cases, sum_below, ℕ_discrete,
}
use mathlib.Core.Path.{subst}
use graduation_prj.PageCache.Defs.{
  cachesize, max_time, CachePage, least_from, lru_victim, fifo_victim,
}

-- The first of the `n` indices whose key is least, among keys below the bound.
abbrev pub FirstLeast : ℕ → (ℕ → ℕ) → ℕ → Option ℕ → Type 0
FirstLeast n key bound none = (i : ℕ) → i < n → bound ≤ key i
FirstLeast n key bound (some v) =
    (v < n)
    × (key v < bound)
    × ((i : ℕ) → i < n → key v ≤ key i)
    × ((i : ℕ) → i < v → key v < key i)

-- The variable `victim_time` of the loop, from `victim_idx`.
abbrev time_of : (ℕ → ℕ) → ℕ → Option ℕ → ℕ
time_of key bound none = bound
time_of key bound (some v) = key v

FirstLeast-below :
    (n : ℕ) (key : ℕ → ℕ) (bound : ℕ) (v : Option ℕ)
    → FirstLeast n key bound v
    → (time_of key bound v ≤ bound) × ((i : ℕ) → i < n → time_of key bound v ≤ key i)
FirstLeast-below n key bound none f = (omega arith, f)
FirstLeast-below n key bound (some v) f = (omega (arith, f.1), f.2)

FirstLeast-lower :
    (n : ℕ) (key : ℕ → ℕ) (bound : ℕ) (v : Option ℕ)
    → FirstLeast n key bound v
    → key n < time_of key bound v
    → FirstLeast (n + 1) key bound (some n)
FirstLeast-lower n key bound v f lt =
    let below = FirstLeast-below n key bound v f in
    (
      omega arith,
      omega (arith, below.0),
      λ i h. elim (ℕ_discrete i n) [
        | yes e ↦ omega (arith, ap key e)
        | no ne ↦ omega (arith, below.1 i (omega (arith, ne)))
      ],
      λ i h. omega (arith, below.1 i h),
    )

FirstLeast-keep :
    (n : ℕ) (key : ℕ → ℕ) (bound : ℕ) (v : Option ℕ)
    → FirstLeast n key bound v
    → time_of key bound v ≤ key n
    → FirstLeast (n + 1) key bound v
FirstLeast-keep n key bound none f le = λ i h. elim (ℕ_discrete i n) [
  | yes e ↦ omega (arith, ap key e)
  | no ne ↦ f i (omega (arith, ne))
]
FirstLeast-keep n key bound (some v) f le = (
  omega (arith, f.0),
  f.1,
  λ i h. elim (ℕ_discrete i n) [
    | yes e ↦ omega (arith, ap key e)
    | no ne ↦ f.2 i (omega (arith, ne))
  ],
  f.3,
)

least_from-FirstLeast :
    (rounds i n : ℕ) (key : ℕ → ℕ) (bound : ℕ) (v : Option ℕ)
    → i + rounds ≡ n
    → FirstLeast i key bound v
    → FirstLeast n key bound (least_from rounds i key (time_of key bound v) v)
unfolding least_from
least_from-FirstLeast zero i n key bound v e f =
    subst (λ m. FirstLeast m key bound v) (omega arith) f
least_from-FirstLeast (suc rounds) i n key bound v e f =
    elim (Bool-cases (ltb (key i) (time_of key bound v))) [
      | inl h ↦ rw h (
          least_from-FirstLeast rounds (i + 1) n key bound (some i) (omega arith)
            (FirstLeast-lower i key bound v f (ltb→lt (key i) (time_of key bound v) h)))
      | inr h ↦ rw h (
          least_from-FirstLeast rounds (i + 1) n key bound v (omega arith)
            (FirstLeast-keep i key bound v f (ltb→le (key i) (time_of key bound v) h)))
    ]

-- `lru_policy` chooses the first page of those with the least reference time, and `FIFO_policy` the
-- first of those with the least number of arrival; they choose none, which the C then uses as the
-- index -1, only if every page has the mark of one that is not in use, or a greater value.
pub victims-FirstLeast :
    (cache : ℕ → CachePage)
    → FirstLeast cachesize (λ i. (cache i).reference_time) max_time (lru_victim cache)
      × FirstLeast cachesize (λ i. (cache i).idx) max_time (fifo_victim cache)
unfolding lru_victim fifo_victim
victims-FirstLeast cache = (
  least_from-FirstLeast cachesize 0 cachesize (λ i. (cache i).reference_time) max_time none refl
      (λ i h. absurd (omega arith)),
  least_from-FirstLeast cachesize 0 cachesize (λ i. (cache i).idx) max_time none refl
      (λ i h. absurd (omega arith)),
)

abbrev pub mark_weight : ℕ → ℕ → ℕ
mark_weight i r = if r == 1 then 1 else 0

-- How many pages are marked.
abbrev pub marks : (ℕ → ℕ) → ℕ
marks ref = sum_below mark_weight cachesize ref

-- The sweep of the clock's hand over marked pages to a victim that has no mark: it takes away the
-- marks of those it passes, no others, and ends after the victim, which had no mark unless all had one.
pub record Swept (axis : ℕ) (ref : ℕ → ℕ) (victim next : ℕ) (after : ℕ → ℕ) : Type 0 where
  pub passed : ℕ
  pub place : victim ≡ (axis + passed) % cachesize
  pub hand : next ≡ (victim + 1) % cachesize
  pub unmarked : after victim ≢ 1
  pub marked : (j : ℕ) → j < passed → ref ((axis + j) % cachesize) ≡ 1
  pub chosen : (ref victim ≢ 1) ⊎ (passed ≡ cachesize)
  pub cleared : (j : ℕ) → j < passed → after ((axis + j) % cachesize) ≡ 0
  pub kept : (i : ℕ) → (after i ≡ ref i) ⊎ ((ref i ≡ 1) × (after i ≡ 0))
  pub short : passed ≤ marks ref

abbrev pub SweptBy : ℕ → (ℕ → ℕ) → Option (ℕ × ℕ × (ℕ → ℕ)) → Type 0
SweptBy axis ref none = zero ≡ suc zero
SweptBy axis ref (some (victim, next, after)) = Swept axis ref victim next after
