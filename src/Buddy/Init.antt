-- ===== src/Buddy/Init.antt =====
-- buddy.c: buddyInit, with bfreerange and linkNodeList, which lay out the managed memory.
use graduation_prj.Base.{
  ℕ, zero, suc, ◌+◌, ◌-◌, ◌*◌, ◌/◌, ◌%◌, ◌^◌, List, [], ◌∷◌, true, false, update, leb, ◌==◌,
  if◌then◌else◌,
}
use graduation_prj.Buddy.Defs.{Buddy, NodeList, pgsize}

-- Sizes of `struct NODE`, of `struct NODELIST` and of a pointer.
abbrev pub node_size : ℕ
node_size = 16

abbrev pub node_list_size : ℕ
node_list_size = 8

abbrev pub pointer_size : ℕ
pointer_size = 4

abbrev pub pg_round_up : ℕ → ℕ
pg_round_up a = (a + pgsize - 1) / pgsize * pgsize

-- `for(; p + PGSIZE <= vend; p += PGSIZE) pageCount++;`, whose sum wraps at 2 ^ 32: with `vend` in the last
-- page it may go on for ever, and this loop stops after its rounds.
unfoldable pub count_pages : ℕ → ℕ → ℕ → ℕ
count_pages zero p vend = 0
count_pages (suc rounds) p vend =
    let rest = count_pages rounds ((p + pgsize) % 2 ^ 32) vend in
    if leb ((p + pgsize) % 2 ^ 32) vend then suc rest else 0

-- `while (count >> 1) { count >>= 1; total *= 2; }`
unfoldable pub total_page_loop : ℕ → ℕ → ℕ → ℕ
total_page_loop zero count total = total
total_page_loop (suc rounds) count total =
    let rest = total_page_loop rounds (count / 2) (total * 2) in
    if count / 2 == 0 then total else rest

-- `while (count >> 1) { count >>= 1; order++; }`
unfoldable pub order_loop : ℕ → ℕ → ℕ → ℕ
order_loop zero count order = order
order_loop (suc rounds) count order =
    let rest = order_loop rounds (count / 2) (order + 1) in if count / 2 == 0 then order else rest

-- `n / PGSIZE`, and one more if `tested % PGSIZE != 0`
abbrev pub pages_for : ℕ → ℕ → ℕ
pages_for n tested = if tested % pgsize == 0 then n / pgsize else (n / pgsize + 1)

-- What `bfreerange` computes: its globals, and `kmemAlloc.vstart` and `kmemAlloc.maxOrder`.
pub record Layout : Type 0 where
  pub page_count : ℕ
  pub node_page_count : ℕ
  pub node_list_page_count : ℕ
  pub node_start : ℕ
  pub node_list_start : ℕ
  pub vstart : ℕ
  pub max_order : ℕ

-- The code tests the remainder for the second table with the size of a pointer.
unfoldable pub bfreerange : ℕ → ℕ → Layout
bfreerange start vend =
    let p = pg_round_up start in
    let page_count = count_pages (vend / pgsize) p vend in
    let total_page = total_page_loop page_count page_count 1 in
    let node_page_count = pages_for (total_page * node_size) (total_page * node_size) in
    let node_list_page_count =
      pages_for (total_page * node_list_size) (total_page * pointer_size) in
    let node_list_start = p + node_page_count * pgsize in
    let remaining = page_count - node_page_count - node_list_page_count in
    record {
      page_count = page_count;
      node_page_count = node_page_count;
      node_list_page_count = node_list_page_count;
      node_start = p;
      node_list_start = node_list_start;
      vstart = node_list_start + node_list_page_count * pgsize;
      max_order = order_loop remaining remaining 0;
    }

-- The loop of `linkNodeList`.
unfoldable pub link_loop : ℕ → ℕ → ℕ → List NodeList → List NodeList
link_loop zero node node_list free = free
link_loop (suc rounds) node node_list free =
    link_loop rounds (node + node_size) (node_list + node_list_size)
      (record { self = node_list; address = node } ∷ free)

unfoldable pub link_node_list : Layout → List NodeList
link_node_list l =
    link_loop (l.node_page_count * pgsize / node_size) l.node_start l.node_list_start []

-- `buddyInit`. The globals start zeroed. The code does not write the word that links the first chunk, so
-- `linked` are the chunks that the memory happens to link there.
unfoldable pub buddy_init : List ℕ → ℕ → ℕ → Buddy
buddy_init linked start vend =
    let l = bfreerange start vend in
    record {
      order_list = update (λ _. []) l.max_order (l.vstart ∷ linked);
      max_order = l.max_order;
      vstart = l.vstart;
      use_lock = true;
      locked = false;
      free_node_list = link_node_list l;
      bucket = λ _. [];
    }
