-- ===== src/Buddy/Layout.antt =====
-- `bfreerange`: the tables and the managed memory lie one after the other, inside the range.
use graduation_prj.Base.{
  ◌%◌, ◌^◌, ℕ, zero, suc, ◌+◌, ◌-◌, ◌*◌, ◌/◌, ◌≤◌, ◌<◌, ◌≡◌, refl, leb, ◌==◌, ◌&&◌, arith, pow2,
  Bool, Bool-cases, inl, inr, true, dec_le, pow2-le, holds_below, holds_below-at, ◌⊎◌, sym, ◌∙◌,
}
use mathlib.Core.Path.{subst}
use native.Mathlib.Nat.{mul-one}
use graduation_prj.Buddy.Defs.{pgsize}
use graduation_prj.Buddy.Init.{
  count_pages, total_page_loop, order_loop, pages_for, Layout, bfreerange, pg_round_up, node_size,
  node_list_size, pointer_size,
}

-- The loop counts the whole pages from `p` on.
count_pages_lem :
    (rounds p vend : ℕ)
    → vend < p + suc rounds * pgsize
    → p ≤ vend
    → vend + pgsize < 2 ^ 32
    → (p + count_pages rounds p vend * pgsize ≤ vend)
      × (vend < p + suc (count_pages rounds p vend) * pgsize)
unfolding count_pages
count_pages_lem zero p vend h le small = omega arith
count_pages_lem (suc rounds) p vend h le small =
    let whole : (p + pgsize) % 2 ^ 32 ≡ p + pgsize = omega (arith, le, small) in
    rw whole (elim (Bool-cases (leb (p + pgsize) vend)) [
      | inl fits ↦ ground (
        arith,
        fits,
        count_pages_lem rounds (p + pgsize) vend (omega (arith, h)) (ground (arith, fits)) small,
      )
      | inr over ↦ ground (arith, over, le)
    ])

-- The logarithm that both halving loops go round by.
record Log (count d : ℕ) : Type 0 where
  below : pow2 d ≤ count
  above : count < 2 * pow2 d

Log-half : (count d : ℕ) → 2 ≤ count → Log (count / 2) d → Log count (suc d)
Log-half count d h l = omega arith

order_loop_lem :
    (rounds count order : ℕ)
    → 1 ≤ count
    → count ≤ rounds
    → (d : ℕ) × (order_loop rounds count order ≡ order + d) × Log count d
unfolding order_loop
order_loop_lem zero count order h le = absurd (omega arith)
order_loop_lem (suc rounds) count order h le = elim (Bool-cases (count / 2 == 0)) [
  | inl last ↦ (0, rw last (omega arith), ground arith)
  | inr more ↦
      let (d, e, l) = order_loop_lem rounds (count / 2) (order + 1) (ground arith) (omega arith) in
      (suc d, rw more (omega (arith, e)), Log-half count d (ground arith) l)
]

total_page_loop_lem :
    (rounds count total : ℕ)
    → 1 ≤ count
    → count ≤ rounds
    → (d : ℕ) × (total_page_loop rounds count total ≡ pow2 d * total) × Log count d
unfolding total_page_loop
total_page_loop_lem zero count total h le = absurd (omega arith)
total_page_loop_lem (suc rounds) count total h le = elim (Bool-cases (count / 2 == 0)) [
  | inl last ↦ (0, rw last (omega arith), ground arith)
  | inr more ↦
      let (d, e, l) =
        total_page_loop_lem rounds (count / 2) (total * 2) (ground arith) (omega arith) in
      (suc d, rw more (omega (arith, e)), Log-half count d (ground arith) l)
]

-- The pages that the two tables take for `2 ^ t` blocks.
abbrev node_pages : ℕ → ℕ
node_pages total = pages_for (total * node_size) (total * node_size)

abbrev node_list_pages : ℕ → ℕ
node_list_pages total = pages_for (total * node_list_size) (total * pointer_size)

pow2-split : (t : ℕ) → (t < 10) ⊎ ((q : ℕ) × (pow2 t ≡ 1024 * q))
pow2-split (suc (suc (suc (suc (suc (suc (suc (suc (suc (suc q)))))))))) = inr (pow2 q, omega arith)
pow2-split t = inl (omega arith)

tables_test : ℕ → Bool
tables_test t =
    leb (pow2 t * node_size) (node_pages (pow2 t) * pgsize)
    && leb (node_pages (pow2 t) * pgsize / node_size * node_list_size)
        (node_list_pages (pow2 t) * pgsize)

small_tables : holds_below tables_test 10 ≡ true
unfolding holds_below tables_test
small_tables = refl

-- The first table holds a node for each block, and the second an entry for each node.
tables_fit :
    (t : ℕ)
    → (pow2 t * node_size ≤ node_pages (pow2 t) * pgsize)
      × (node_pages (pow2 t) * pgsize / node_size * node_list_size
          ≤ node_list_pages (pow2 t) * pgsize)
unfolding tables_test
tables_fit t = elim (pow2-split t) [
  | inl small ↦ ground (arith, holds_below-at tables_test 10 t small_tables small)
  | inr (q, e) ↦ rw e (ground arith)
]

tables_small :
    (total : ℕ) → node_pages total + node_list_pages total ≤ total / 256 + total / 512 + 2
tables_small total = ground arith

-- What `bfreerange` computes for a range: the parts follow one another inside it, the tables are large
-- enough for one node for each page of the managed memory, and memory of the next order would end behind
-- the range.
pub record LayoutFits (start vend : ℕ) (l : Layout) : Type 0 where
  pub starts : start ≤ l.node_start
  pub nodes_end : l.node_start + l.node_page_count * pgsize ≡ l.node_list_start
  pub lists_end : l.node_list_start + l.node_list_page_count * pgsize ≡ l.vstart
  pub ends : l.vstart + pow2 l.max_order * pgsize ≤ vend
  pub enough_nodes : pow2 l.max_order ≤ l.node_page_count * pgsize / node_size
  pub enough_lists :
      l.node_page_count * pgsize / node_size * node_list_size ≤ l.node_list_page_count * pgsize
  pub near : l.node_start < start + pgsize
  pub largest : vend < l.vstart + 2 * pow2 l.max_order * pgsize
  pub pages : l.page_count < l.node_page_count + l.node_list_page_count + 2 * pow2 l.max_order

-- The layout, from the number of pages and the number of blocks that the tables provide for.
abbrev layout_of : ℕ → ℕ → ℕ → Layout
layout_of p count total =
    let remaining = count - node_pages total - node_list_pages total in
    record {
      page_count = count;
      node_page_count = node_pages total;
      node_list_page_count = node_list_pages total;
      node_start = p;
      node_list_start = p + node_pages total * pgsize;
      vstart = p + node_pages total * pgsize + node_list_pages total * pgsize;
      max_order = order_loop remaining remaining 0;
    }

pow2_le_of_lt : (m d : ℕ) → pow2 m < 2 * pow2 d → pow2 m ≤ pow2 d
pow2_le_of_lt m d h = elim (dec_le m d) [
  | yes le ↦ pow2-le m d le
  | no gt ↦ absurd (omega (arith, pow2-le (suc d) m (omega arith)))
]

layout_of-LayoutFits :
    (start vend p count d : ℕ)
    → start ≤ p
    → p < start + pgsize
    → p + count * pgsize ≤ vend
    → vend < p + suc count * pgsize
    → 3 ≤ count
    → Log count d
    → LayoutFits start vend (layout_of p count (pow2 d))
layout_of-LayoutFits start vend p count d from near within past three log =
    let remaining : ℕ = count - node_pages (pow2 d) - node_list_pages (pow2 d) in
    let small = tables_small (pow2 d) in
    let (m, order, top) =
      order_loop_lem remaining remaining 0 (omega (arith, small, log.below)) (omega arith) in
    let fits = tables_fit d in
    let order' : order_loop remaining remaining 0 ≡ m = omega (arith, order) in
    record {
      starts = from;
      nodes_end = refl;
      lists_end = refl;
      ends = rw order' (omega (arith, top.below, small, log.below));
      enough_nodes =
          rw order' (omega (arith, pow2_le_of_lt m d (omega (arith, top.below, log.above)), fits));
      enough_lists = fits.1;
      near = near;
      largest = rw order' (omega (arith, top.above, past));
      pages = rw order' (omega (arith, top.above));
    }

pub bfreerange-LayoutFits :
    (start vend : ℕ)
    → pg_round_up start + 3 * pgsize ≤ vend
    → vend + pgsize < 2 ^ 32
    → LayoutFits start vend (bfreerange start vend)
unfolding bfreerange
bfreerange-LayoutFits start vend room small =
    let n : ℕ = count_pages (vend / pgsize) (pg_round_up start) vend in
    let counted =
      count_pages_lem (vend / pgsize) (pg_round_up start) vend (omega arith) (omega arith) small in
    let (d, total, log) = total_page_loop_lem n n 1 (omega (arith, counted)) (omega arith) in
    subst (λ t. LayoutFits start vend (layout_of (pg_round_up start) n t))
      (sym (total ∙ mul-one (pow2 d)))
      (layout_of-LayoutFits start vend (pg_round_up start) n d (omega arith) (omega arith) counted.0
        counted.1 (omega (arith, counted)) log)
