-- ===== src/Buddy/Start.antt =====
-- `buddyInit` leaves a valid allocator whose only chunk is the whole managed memory.
use graduation_prj.Base.{
  sym, ℕ, zero, suc, ◌+◌, ◌*◌, ◌/◌, ◌^◌, ◌≤◌, ◌<◌, ◌≡◌, refl, List, [], ◌∷◌, update_keeps, All,
  arith, pow2, pow2-le, sum_below-update, sum_below-zero, dec_lt, length,
}
use mathlib.Core.Path.{subst}
use graduation_prj.Buddy.Defs.{Buddy, NodeList, pgsize, num_orders, hashsize}
use graduation_prj.Buddy.Init.{
  bfreerange, buddy_init, link_loop, link_node_list, pg_round_up, node_size, node_list_size,
}
use graduation_prj.Buddy.Cover.{covers, list_cover, free_cover}
use graduation_prj.Buddy.Region.{InRegion}
use graduation_prj.Buddy.Valid.{nodes_cover, used_cover, IsValid}
use graduation_prj.Buddy.Layout.{bfreerange-LayoutFits}

-- The linked list of unused nodes has one entry for each round.
length-link_loop :
    (rounds node node_list : ℕ) (free : List NodeList)
    → length (link_loop rounds node node_list free) ≡ rounds + length free
unfolding link_loop
length-link_loop zero node node_list free = omega arith
length-link_loop (suc rounds) node node_list free = omega (
  arith,
  length-link_loop rounds (node + node_size) (node_list + node_list_size)
      (record { self = node_list; address = node } ∷ free),
)

-- Each entry, with the node it stands for, ends where the one before it in the list begins.
abbrev pub Stacked : ℕ → ℕ → List NodeList → Type 0
Stacked node node_list [] = Unit
Stacked node node_list (r ∷ rest) =
    (r.address + node_size ≤ node)
    × (r.self + node_list_size ≤ node_list)
    × Stacked r.address r.self rest

Stacked-le :
    (node node_list node' node_list' : ℕ) (rest : List NodeList)
    → node ≤ node'
    → node_list ≤ node_list'
    → Stacked node node_list rest
    → Stacked node' node_list' rest
Stacked-le node node_list node' node_list' [] le le' h = tt
Stacked-le node node_list node' node_list' (r ∷ rest) le le' h =
    (omega (arith, h.0, le), omega (arith, h.1, le'), h.2)

link_loop-Stacked :
    (rounds node node_list : ℕ) (free : List NodeList)
    → Stacked node node_list free
    → Stacked
        (node + rounds * node_size)
        (node_list + rounds * node_list_size)
        (link_loop rounds node node_list free)
unfolding link_loop
link_loop-Stacked zero node node_list free h =
    Stacked-le node node_list (node + 0) (node_list + 0) free (omega arith) (omega arith) h
link_loop-Stacked (suc rounds) node node_list free h =
    let longer : List NodeList = record { self = node_list; address = node } ∷ free in
    Stacked-le (node + node_size + rounds * node_size)
      (node_list + node_list_size + rounds * node_list_size) (node + suc rounds * node_size)
      (node_list + suc rounds * node_list_size)
      (link_loop rounds (node + node_size) (node_list + node_list_size) longer) (omega arith)
      (omega arith)
      (link_loop-Stacked rounds (node + node_size) (node_list + node_list_size) longer
        (omega arith, omega arith, h))

-- The entries lie from `low` on, and their nodes from `node_low` on.
abbrev pub Above : ℕ → ℕ → NodeList → Type 0
Above node_low low r = (node_low ≤ r.address) × (low ≤ r.self)

link_loop-Above :
    (rounds node node_list node_low low : ℕ) (free : List NodeList)
    → node_low ≤ node
    → low ≤ node_list
    → All (Above node_low low) free
    → All (Above node_low low) (link_loop rounds node node_list free)
unfolding link_loop
link_loop-Above zero node node_list node_low low free le le' h = h
link_loop-Above (suc rounds) node node_list node_low low free le le' h =
    link_loop-Above rounds (node + node_size) (node_list + node_list_size) node_low low
      (record { self = node_list; address = node } ∷ free) (omega (arith, le)) (omega (arith, le'))
      ((le, le'), h)

-- The state after `buddyInit`: the nodes lie in the range before `middle`, their list entries behind it,
-- and behind these the managed memory; no two of them overlap.
pub record Started (start vend : ℕ) (b : Buddy) : Type 0 where
  pub valid : IsValid b
  pub unused : (x : ℕ) → used_cover x b ≡ 0
  pub all_free : (x : ℕ) → free_cover x b ≡ covers x b.max_order b.vstart
  pub nodes : pow2 b.max_order ≤ length b.free_node_list
  pub ends : b.vstart + pow2 b.max_order * pgsize ≤ vend
  pub middle : ℕ
  pub stacked : Stacked middle b.vstart b.free_node_list
  pub above : All (Above start middle) b.free_node_list

covers-le : (x order chunk : ℕ) → covers x order chunk ≤ 1
covers-le x order chunk = ground arith

top_lt : (m v vend : ℕ) → v + pow2 m * pgsize ≤ vend → vend < 2 ^ 32 → m < num_orders
top_lt m v vend ends small = elim (dec_lt m num_orders) [
  | yes lt ↦ lt
  | no ge ↦ absurd (omega (arith, pow2-le num_orders m (omega arith)))
]

init-Started :
    (start vend : ℕ)
    → pg_round_up start + 3 * pgsize ≤ vend
    → vend + pgsize < 2 ^ 32
    → Started start vend (buddy_init [] start vend)
unfolding buddy_init
init-Started start vend room small =
    let l = bfreerange start vend in
    let fits = bfreerange-LayoutFits start vend room small in
    let count : ℕ = l.node_page_count * pgsize / node_size in
    let lt = top_lt l.max_order l.vstart vend fits.ends (omega (arith, small)) in
    let none_used : (x : ℕ) → used_cover x (buddy_init [] start vend) ≡ 0 =
      λ x. sum_below-zero (nodes_cover x) (λ _. []) (λ _. refl) hashsize in
    let all : (x : ℕ) → free_cover x (buddy_init [] start vend) ≡ covers x l.max_order l.vstart =
      λ x. omega (
        arith,
        sum_below-update (list_cover x) num_orders (λ _. []) l.max_order (l.vstart ∷ []) lt,
        sum_below-zero (list_cover x) (λ _. []) (λ _. refl) num_orders,
      ) in
    record {
      valid = record {
        top = lt;
        regions =
            update_keeps (λ k. All (InRegion l.vstart l.max_order k)) (λ _. []) l.max_order
              (l.vstart ∷ []) ((0, omega arith, omega arith), tt) (λ _. tt);
        nodes = λ _. tt;
        once = λ x. omega (arith, all x, none_used x, covers-le x l.max_order l.vstart);
        unlocked = refl;
      };
      unused = none_used;
      all_free = all;
      nodes =
          unfold link_node_list in
          omega (
            arith,
            fits.enough_nodes,
            length-link_loop (l.node_page_count * pgsize / node_size) l.node_start l.node_list_start
                [],
          );
      ends = fits.ends;
      middle = l.node_list_start;
      stacked =
          unfold link_node_list in
          Stacked-le (l.node_start + count * node_size) (l.node_list_start + count * node_list_size)
            l.node_list_start l.vstart (link_loop count l.node_start l.node_list_start [])
            (omega (arith, fits.nodes_end)) (omega (arith, fits.lists_end, fits.enough_lists))
            (link_loop-Stacked count l.node_start l.node_list_start [] tt);
      above =
          unfold link_node_list in
          link_loop-Above count l.node_start l.node_list_start start l.node_list_start []
            fits.starts (omega arith) tt;
    }

-- `buddyInit` on a range of at least three pages that ends before the last page of a 32-bit address
-- space, where the word that would link the first chunk, which the code does not write, is null: the
-- allocator is valid, nothing is handed out, exactly the addresses of the managed memory are free, and
-- there is an unused node for each page of it. The unused nodes, their list entries behind them, and
-- the managed memory behind these lie in the range, and no two of them overlap.
pub buddy_init-Started :
    (linked : List ℕ) (start vend : ℕ)
    → linked ≡ []
    → pg_round_up start + 3 * pgsize ≤ vend
    → vend + pgsize < 2 ^ 32
    → Started start vend (buddy_init linked start vend)
buddy_init-Started linked start vend null room small =
    subst (λ chunks. Started start vend (buddy_init chunks start vend)) (sym null)
      (init-Started start vend room small)
