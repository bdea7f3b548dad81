-- ===== src/Buddy/Merging.antt =====
-- `mergeOrder` on chunks that lie where chunks do: it ends, stays inside `orderList`, and what the
-- free chunks cover is the same after it.
use graduation_prj.Base.{
  ℕ, zero, suc, ◌+◌, ◌-◌, ◌*◌, ◌/◌, ◌%◌, ◌≤◌, ◌<◌, ◌≡◌, ◌⊎◌, refl, ap, List, [], ◌∷◌, some, update,
  All, update_keeps, update_same, ◌==◌, true, Result, ok, arith, pow2, pow2-pos, pow2_mono,
  sum_below-update, Bool-cases, Option-cases, inl, inr, ==→eq, eq→==, ne→==, ◌∙◌,
}
use native.Mathlib.Nat.{add_comm, mul-mod_left, mod-eq_of_lt, mul-add-mod_self_right}
use mathlib.Core.Path.{subst}
use native.Mathlib.Numerals.{add-one}
use graduation_prj.Buddy.Defs.{Buddy, pgsize, num_orders, double_times, push_chunk}
use graduation_prj.Buddy.Merge.{unlink_chunk, buddy_of, join_chunks, merge_order, has_chunk}
use graduation_prj.Buddy.Cover.{
  covers, list_cover, free_cover, double_times-eq, covers-halves, free_cover-push_chunk,
}
use graduation_prj.Buddy.Region.{InRegion, Regions, SameRest, push_chunk-Regions}

parity : (i : ℕ) → (i ≡ i / 2 * 2) ⊎ (i ≡ i / 2 * 2 + 1)
parity i = elim (Bool-cases (i % 2 == 0)) [
  | inl even ↦ inl (omega (arith, ==→eq (i % 2) 0 even))
  | inr odd ↦ inr (ground arith)
]

mod_odd : (j s : ℕ) → 1 ≤ s → (j * (2 * s) + s) % (2 * s) ≡ s
mod_odd j s h = rw mul-add-mod_self_right (mod-eq_of_lt (omega arith))

-- The buddy of a chunk and the merged chunk.
pub record Pair (v max order chunk buddy merged : ℕ) : Type 0 where
  pub inside : InRegion v max order buddy → InRegion v max (suc order) merged
  pub cover : (x : ℕ) → covers x (suc order) merged ≡ covers x order chunk + covers x order buddy

module _ (v order j : ℕ) where
  space-eq : double_times (order + 1) pgsize ≡ 2 * (pow2 order * pgsize)
  space-eq = rw (add-one, double_times-eq) (omega arith)

  buddy_of_even :
      (chunk : ℕ)
      → chunk ≡ v + j * 2 * (pow2 order * pgsize)
      → buddy_of v order chunk ≡ (chunk + pow2 order * pgsize, chunk)
  unfolding buddy_of
  buddy_of_even chunk e =
      let fits : (chunk - v) % (2 * (pow2 order * pgsize)) ≡ 0 =
        ap (λ n. n % (2 * (pow2 order * pgsize))) (omega arith)
        ∙ mul-mod_left j (2 * (pow2 order * pgsize)) in
      rw (space-eq, eq→== _ 0 fits) (ap (λ n. (chunk + n, chunk)) (omega arith))

  buddy_of_odd :
      (chunk : ℕ)
      → chunk ≡ v + (j * 2 + 1) * (pow2 order * pgsize)
      → buddy_of v order chunk ≡ (chunk - pow2 order * pgsize, chunk - pow2 order * pgsize)
  unfolding buddy_of
  buddy_of_odd chunk e =
      let rest : (chunk - v) % (2 * (pow2 order * pgsize)) ≡ pow2 order * pgsize =
        ap (λ n. n % (2 * (pow2 order * pgsize))) (omega arith)
        ∙ mod_odd j (pow2 order * pgsize) (omega (arith, pow2-pos order)) in
      rw
        (
          space-eq,
          ne→== ((chunk - v) % (2 * (pow2 order * pgsize))) 0 (omega (arith, rest, pow2-pos order)),
        )
        (ap (λ n. (chunk - n, chunk - n)) (omega arith))

pair_even :
    (v chunk p i i' m : ℕ)
    → chunk ≡ v + i * (p * pgsize)
    → chunk + p * pgsize ≡ v + i' * (p * pgsize)
    → suc i' * p ≤ m
    → i ≡ i / 2 * 2
    → (chunk ≡ v + i / 2 * (2 * p * pgsize)) × (suc (i / 2) * (2 * p) ≤ m)
pair_even v chunk p i i' m at at' fits even = omega (arith, ap (λ n. n * p) even)

pair_odd :
    (v chunk p i m : ℕ)
    → chunk ≡ v + i * (p * pgsize)
    → suc i * p ≤ m
    → i ≡ i / 2 * 2 + 1
    → (chunk - p * pgsize ≡ v + i / 2 * (2 * p * pgsize))
      × (suc (i / 2) * (2 * p) ≤ m)
      × (chunk - p * pgsize + p * pgsize ≡ chunk)
pair_odd v chunk p i m at fits odd = omega (arith, ap (λ n. n * p) odd)

-- The buddy of a chunk is the other half of the merged chunk.
pub buddy_of-Pair :
    (v max order chunk : ℕ)
    → InRegion v max order chunk
    → let (buddy, merged) = buddy_of v order chunk in Pair v max order chunk buddy merged
buddy_of-Pair v max order chunk (i, at, fits) = elim (parity i) [
  | inl even ↦
      rw (buddy_of_even v order (i / 2) chunk (at ∙ ap (λ n. v + n * (pow2 order * pgsize)) even))
        (record {
          inside = λ (i', at', fits').
              let p = pair_even v chunk (pow2 order) i i' (pow2 max) at at' fits' even in
              (i / 2, p.0, p.1);
          cover = λ x. covers-halves x order chunk;
        })
  | inr odd ↦
      let p = pair_odd v chunk (pow2 order) i (pow2 max) at fits odd in
      rw (buddy_of_odd v order (i / 2) chunk (at ∙ ap (λ n. v + n * (pow2 order * pgsize)) odd))
        (record {
          inside = λ _. (i / 2, p.0, p.1);
          cover = λ x.
              let merged : ℕ = chunk - pow2 order * pgsize in
              covers-halves x order merged
              ∙ ap (λ c. covers x order merged + covers x order c) p.2
              ∙ add_comm (covers x order merged) (covers x order chunk);
        })
]

-- What the walk for the buddy leaves.
pub unlink_chunk-cover :
    (x order buddy : ℕ) (l : List ℕ) {r : List ℕ}
    → unlink_chunk buddy l ≡ some r
    → list_cover x order l ≡ list_cover x order r + covers x order buddy
unfolding unlink_chunk
unlink_chunk-cover x order buddy [] e = cc
unlink_chunk-cover x order buddy (c ∷ l) e = elim (Option-cases (unlink_chunk buddy l)) [
  | inl missing ↦ ground (arith, ==→eq c buddy)
  | inr (r', left) ↦ ground (arith, ==→eq c buddy, unlink_chunk-cover x order buddy l left)
]

pub unlink_chunk-All :
    (P : ℕ → Type 0) (buddy : ℕ) (l : List ℕ) {r : List ℕ}
    → unlink_chunk buddy l ≡ some r
    → All P l
    → P buddy × All P r
unfolding unlink_chunk
unlink_chunk-All P buddy [] e h = cc
unlink_chunk-All P buddy (c ∷ l) {r} e h = elim (Bool-cases (c == buddy)) [
  | inl found ↦
      let e' : l ≡ r = ground arith in (subst P (==→eq c buddy found) h.0, subst (All P) e' h.1)
  | inr other ↦ elim (Option-cases (unlink_chunk buddy l)) [
    | inl missing ↦ ground arith
    | inr (r', left) ↦
        let (here, rest) = unlink_chunk-All P buddy l left h.1 in
        let e' : c ∷ r' ≡ r = ground arith in (here, subst (All P) e' (h.0, rest))
  ]
]

-- What `mergeOrder` leaves: only the free lists change, every chunk lies where chunks do, and the free
-- chunks cover what they covered.
pub record Merged (v max : ℕ) (b : Buddy) (outcome : Result Buddy) : Type 0 where
  pub after : Buddy
  pub runs : outcome ≡ ok after
  pub same : SameRest b after
  pub regions : Regions v max after.order_list
  pub cover : (x : ℕ) → free_cover x after ≡ free_cover x b

join_chunks-cover :
    (x order chunk buddy merged : ℕ) (candidates remaining : List ℕ) (b : Buddy)
    → suc order < num_orders
    → b.order_list order ≡ chunk ∷ candidates
    → unlink_chunk buddy candidates ≡ some remaining
    → covers x (suc order) merged ≡ covers x order chunk + covers x order buddy
    → free_cover x (join_chunks order merged remaining b) ≡ free_cover x b
unfolding join_chunks
join_chunks-cover x order chunk buddy merged candidates remaining b lt e left c =
    let b₁ : Buddy = record b { order_list = update b.order_list order remaining } in
    rw add-one (
      ground (
        arith,
        free_cover-push_chunk x (suc order) merged b₁ lt,
        sum_below-update (list_cover x) num_orders b.order_list order remaining (omega arith),
        unlink_chunk-cover x order buddy candidates left,
        ap (list_cover x order) e,
      ))

join_chunks-Regions :
    (v max order merged : ℕ) (remaining : List ℕ) (b : Buddy)
    → Regions v max b.order_list
    → All (InRegion v max order) remaining
    → InRegion v max (suc order) merged
    → Regions v max (join_chunks order merged remaining b).order_list
unfolding join_chunks
join_chunks-Regions v max order merged remaining b r rest m =
    let b₁ : Buddy = record b { order_list = update b.order_list order remaining } in
    rw add-one (
      push_chunk-Regions v max (suc order) merged b₁ m
        (update_keeps (λ k. All (InRegion v max k)) b.order_list order remaining rest r))

join_chunks-SameRest :
    (order merged : ℕ) (remaining : List ℕ) (b : Buddy)
    → SameRest b (join_chunks order merged remaining b)
unfolding join_chunks push_chunk
join_chunks-SameRest order merged remaining b = refl

has_chunk-join_chunks :
    (order merged : ℕ) (remaining : List ℕ) (b : Buddy)
    → has_chunk ((join_chunks order merged remaining b).order_list (suc order)) ≡ true
unfolding join_chunks push_chunk
has_chunk-join_chunks order merged remaining b =
    let f : ℕ → List ℕ = update b.order_list order remaining in
    rw (add-one, update_same f (suc order) (merged ∷ f (suc order)))

-- `mergeOrder` started on a list with a chunk returns, and never looks beyond `orderList`.
pub merge_order-Merged :
    (rounds order : ℕ) (max : ℕ) (b : Buddy) (chunks : List ℕ)
    → order + rounds ≡ num_orders
    → order ≤ max
    → max < num_orders
    → b.order_list order ≡ chunks
    → has_chunk chunks ≡ true
    → Regions b.vstart max b.order_list
    → Merged b.vstart max b (merge_order rounds order b)
unfolding merge_order join_chunks push_chunk
merge_order-Merged zero order max b chunks enough le lt e h r = absurd (omega arith)
merge_order-Merged (suc rounds) order max b [] enough le lt e h r = cc
merge_order-Merged (suc rounds) order max b (chunk ∷ candidates) enough le lt e h r =
    let here : All (InRegion b.vstart max order) (chunk ∷ candidates) = rw e at (r order) in
    let pair = buddy_of-Pair b.vstart max order chunk here.0 in
    let buddy : ℕ = (buddy_of b.vstart order chunk).0 in
    let merged : ℕ = (buddy_of b.vstart order chunk).1 in
    elim (Option-cases (unlink_chunk buddy candidates)) [
      | inl alone ↦ record {
        after = b;
        runs = ground arith;
        same = refl;
        regions = r;
        cover = λ x. refl;
      }
      | inr (remaining, left) ↦
          let (found, rest) =
            unlink_chunk-All (InRegion b.vstart max order) buddy candidates left here.1 in
          let (i, at, fits) = pair.inside found in
          let b' : Buddy = join_chunks order merged remaining b in
          let above : suc order ≤ max = pow2_mono (suc order) max (omega arith) in
          let chunks_above : has_chunk (b'.order_list (suc order)) ≡ true =
            has_chunk-join_chunks order merged remaining b in
          let later =
            merge_order-Merged rounds (suc order) max b' _ (omega arith) above lt refl chunks_above
              (join_chunks-Regions b.vstart max order merged remaining b r rest (i, at, fits)) in
          record {
            after = later.after;
            runs = ground (arith, later.runs, add-one order);
            same = ground (arith, later.same, join_chunks-SameRest order merged remaining b);
            regions = later.regions;
            cover = λ x.
                later.cover x
                ∙ join_chunks-cover x order chunk buddy merged candidates remaining b (omega arith)
                    e left (pair.cover x);
          }
    ]
