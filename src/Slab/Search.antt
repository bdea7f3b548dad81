-- ===== src/Slab/Search.antt =====
-- slab.c: how `slab_system` looks for a page with a free object, and the cache that a size belongs to.
use graduation_prj.Base.{
  ℕ, zero, suc, ◌+◌, ◌*◌, ◌%◌, ◌^◌, ◌≤◌, ◌<◌, ◌≡◌, ◌≢◌, inl, inr, refl, sym, ap, true, false, List,
  [], ◌∷◌, ◌++◌, append_assoc, append-nil, All, All-append, arith, Bool-cases, ltb, ◌==◌, eq→==,
  ne→==, ltb→lt, ltb→le, le→ltb, pow2, pow2-le, ℕ_discrete, Result, ok, stop,
}
use mathlib.Core.Path.{subst}
use graduation_prj.Slab.Defs.{
  Page, Cache, Search, has_object, needs_page, null_page, more_rounds, is_empty, try_alloc,
  length_pages, page_tail, find_object, calc_slab_idx, calc_slab_idx_loop,
}

abbrev pub IsFull : Page → Type 0
IsFull p = p.free_list ≡ []

-- The list ends with the page at `tail`, and no page before it is there.
abbrev pub TailIs : ℕ → List Page → Type 0
TailIs tail [] = ⊥
TailIs tail (p ∷ []) = p.self ≡ tail
TailIs tail (p ∷ q ∷ qs) = (p.self ≢ tail) × TailIs tail (q ∷ qs)

-- The first page that has a free object becomes the current one, behind it the pages after it and then
-- the full ones before it; a new page is asked for when every page is full.
abbrev pub SearchOutcome : Cache → List Page → Search → Type 0
SearchOutcome c pages (has_object found) =
    (full : List Page) × (p : Page) × (after : List Page) × (pages ≡ full ++ (p ∷ after))
    × All IsFull full
    × (is_empty p.free_list ≡ false)
    × (found ≡ record c { pages = p ∷ (after ++ full) })
SearchOutcome c pages (needs_page left) =
    All IsFull pages
    × (full : List Page) × (p : Page) × (pages ≡ full ++ (p ∷ []))
    × (left ≡ record c { pages = p ∷ full })
SearchOutcome c pages null_page = ⊥
SearchOutcome c pages more_rounds = ⊥

is_empty-nil {ℓ} : {A : Type ℓ} (xs : List A) → is_empty xs ≡ true → xs ≡ []
is_empty-nil [] e = refl
is_empty-nil (x ∷ xs) e = absurd (ground (arith, e))

search-step :
    (fuel tail : ℕ) (p : Page) (ps : List Page) (c : Cache)
    → is_empty p.free_list ≡ true
    → is_empty ps ≡ false
    → (p.self == tail) ≡ false
    → try_alloc (suc fuel) tail (p ∷ ps) c ≡ try_alloc fuel tail (ps ++ (p ∷ [])) c
unfolding try_alloc
search-step fuel tail p ps c e k t = rw e (rw k (rw t refl))

search-found :
    (fuel tail : ℕ) (p : Page) (ps : List Page) (c : Cache)
    → is_empty p.free_list ≡ false
    → try_alloc (suc fuel) tail (p ∷ ps) c ≡ has_object (record c { pages = p ∷ ps })
unfolding try_alloc
search-found fuel tail p ps c e = rw e refl

search-last :
    (fuel tail : ℕ) (p : Page) (ps : List Page) (c : Cache)
    → is_empty p.free_list ≡ true
    → (p.self == tail) ≡ true
    → try_alloc (suc fuel) tail (p ∷ ps) c ≡ needs_page (record c { pages = p ∷ ps })
unfolding try_alloc
search-last fuel tail p [] c e t = rw e refl
search-last fuel tail p (q ∷ qs) c e t = rw e (rw t refl)

search-rounds :
    (fuel tail : ℕ) (rest full : List Page) (c : Cache)
    → TailIs tail rest
    → All IsFull full
    → length_pages rest ≤ fuel
    → SearchOutcome c (full ++ rest) (try_alloc fuel tail (rest ++ full) c)
search-rounds fuel tail [] full c last done le = absurd last
search-rounds zero tail (p ∷ ps) full c last done le = absurd (omega arith)
search-rounds (suc fuel) tail (p ∷ []) full c last done le =
    elim (Bool-cases (is_empty p.free_list)) [
      | inl e ↦ rw (search-last fuel tail p full c e (eq→== p.self tail last)) (
        All-append IsFull full (p ∷ []) done (is_empty-nil p.free_list e, tt),
        full,
        p,
        refl,
        refl,
      )
      | inr e ↦ rw (search-found fuel tail p full c e) (full, p, [], refl, done, e, refl)
    ]
search-rounds (suc fuel) tail (p ∷ q ∷ qs) full c last done le =
    elim (Bool-cases (is_empty p.free_list)) [
      | inl e ↦
          rw (search-step fuel tail p (q ∷ (qs ++ full)) c e refl (ne→== p.self tail last.0)) (
            rw (append_assoc (q ∷ qs) full (p ∷ [])) (
              subst
                (λ l. SearchOutcome c l (try_alloc fuel tail ((q ∷ qs) ++ (full ++ (p ∷ []))) c))
                (append_assoc full (p ∷ []) (q ∷ qs))
                (search-rounds fuel tail (q ∷ qs) (full ++ (p ∷ [])) c last.1
                  (All-append IsFull full (p ∷ []) done (is_empty-nil p.free_list e, tt))
                  (omega arith))))
      | inr e ↦
          rw (search-found fuel tail p ((q ∷ qs) ++ full) c e)
            (full, p, q ∷ qs, refl, done, e, refl)
    ]

-- The search through a list of pages, not empty and with no other page where the last one is, ends
-- without following a null pointer and within a round per page: it asks for a new page when no page has
-- a free object, and otherwise makes the first page that has one the current page, with the pages
-- after it and then the full ones before it behind it.
pub find_object-SearchOutcome :
    (c : Cache) → TailIs (page_tail c.pages) c.pages → SearchOutcome c c.pages (find_object c)
unfolding find_object
find_object-SearchOutcome c tail =
    subst (λ l. SearchOutcome c c.pages (try_alloc (length_pages c.pages) (page_tail c.pages) l c))
      (append-nil c.pages)
      (search-rounds (length_pages c.pages) (page_tail c.pages) c.pages [] c tail tt (omega arith))

-- `k` counts the doublings of 4 up to the first power that is not below `n`.
abbrev pub Fits : ℕ → Result ℕ → Type 0
Fits n (stop _) = ⊥
Fits n (ok k) = (n ≤ 4 * pow2 k) × ((j : ℕ) → j < k → 4 * pow2 j < n)

pow2_next : (cnt : ℕ) → pow2 (cnt + 1) ≡ 2 * pow2 cnt
pow2_next cnt = (let e : cnt + 1 ≡ suc cnt = omega arith in ap pow2 e)

doubling_below :
    (n cnt j : ℕ)
    → ((i : ℕ) → i < cnt → 4 * pow2 i < n)
    → 4 * pow2 cnt < n
    → j < cnt + 1
    → 4 * pow2 j < n
doubling_below n cnt j below here lt = elim (ℕ_discrete j cnt) [
  | yes e ↦ subst (λ i. 4 * pow2 i < n) (sym e) here
  | no ne ↦ below j (omega (arith, lt, ne))
]

doubling : (cnt : ℕ) → cnt ≤ 28 → 4 * pow2 cnt * 2 % 2 ^ 32 ≡ 4 * pow2 (cnt + 1)
doubling cnt le = omega (arith, pow2-le (cnt + 1) 29 (omega arith), pow2_next cnt)

doubling-Fits :
    (rounds n cnt : ℕ)
    → cnt + rounds ≤ 29
    → n ≤ 4 * pow2 (cnt + rounds)
    → ((j : ℕ) → j < cnt → 4 * pow2 j < n)
    → Fits n (calc_slab_idx_loop rounds n (4 * pow2 cnt) cnt)
unfolding calc_slab_idx_loop
doubling-Fits zero n cnt le top below =
    let here : n ≤ 4 * pow2 cnt = subst (λ k. n ≤ 4 * pow2 k) (omega arith) top in
    rw (le→ltb (4 * pow2 cnt) n here) (here, below)
doubling-Fits (suc rounds) n cnt le top below = elim (Bool-cases (ltb (4 * pow2 cnt) n)) [
  | inl more ↦ rw more (
      rw (doubling cnt (omega (arith, le))) (
        doubling-Fits rounds n (cnt + 1) (omega (arith, le))
          (subst (λ k. n ≤ 4 * pow2 k) (omega arith) top)
          (λ j lt. doubling_below n cnt j below (ltb→lt (4 * pow2 cnt) n more) lt)))
  | inr here ↦ rw here (ltb→le (4 * pow2 cnt) n here, below)
]

-- For a size up to 2 ^ 31 the loop ends, without overflow, and its index is that of the smallest
-- object size 4, 8, 16, ... that is not below the request.
pub calc_slab_idx-Fits : (n : ℕ) → n ≤ 2 ^ 31 → Fits n (calc_slab_idx n)
unfolding calc_slab_idx
calc_slab_idx-Fits n le = elim (Bool-cases (ltb n 4)) [
  | inl small ↦ rw small (omega (arith, ltb→lt n 4 small), λ j lt. absurd (omega (arith, lt)))
  | inr large ↦
      rw large (doubling-Fits 29 n 0 (omega arith) le (λ j lt. absurd (omega (arith, lt))))
]
