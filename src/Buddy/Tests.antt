-- ===== src/Buddy/Tests.antt =====
-- The allocator on concrete memory: witnesses of the theorems and runs of the code.
use graduation_prj.Base.{
  ℕ, ◌+◌, ◌*◌, ◌≡◌, refl, [], ◌∷◌, true, false, ok, arith, ◌>>=◌, Result, ℕ_discrete, List, update,
  update_keeps, All, sum_below-zero, sum_below-update,
}
use graduation_prj.Buddy.Defs.{
  Buddy, Node, NodeList, num_orders, hashsize, cal_order, cal_order_loop, acquire, release,
  acquire_if_used, release_if_used, pop_chunk, push_chunk, split_chunk, divide_order, double_times,
}
use graduation_prj.Buddy.Merge.{
  unlink_chunk, buddy_of, join_chunks, merge_order, hash_func, create_node, add_size, unlink_node,
  remove_size, take_chunk, alloc_loop, alloc_pages, free_block, free_pages,
}
use graduation_prj.Buddy.Init.{
  count_pages, total_page_loop, order_loop, bfreerange, link_loop, link_node_list, buddy_init,
}
use graduation_prj.Buddy.Cover.{list_cover}
use graduation_prj.Buddy.Valid.{IsValid, NodeFits, nodes_cover}
use graduation_prj.Buddy.Free.{Freed, free_pages-Freed}
use graduation_prj.Buddy.Orders.{order_of, order_of_loop, Least, cal_order-Least}
use graduation_prj.Buddy.Start.{Started, buddy_init-Started}

abbrev page : ℕ → ℕ
page n = n * 4096

-- Twelve pages from 0x400000: a page for each table, and eight pages that are managed.
abbrev small : Buddy
small = buddy_init [] 0x400000 (0x400000 + page 12)

cal_order_tests : (cal_order 4096 ≡ ok 0) × (cal_order 4097 ≡ ok 1) × (cal_order 32768 ≡ ok 3)
unfolding cal_order cal_order_loop
cal_order_tests = (refl, refl, refl)

layout_test : (bfreerange 0x400000 (0x400000 + page 12)).max_order ≡ 3
unfolding bfreerange count_pages total_page_loop order_loop
layout_test = refl

cal_order-Least_example : (r : ℕ) × (cal_order 12288 ≡ ok r) × Least 0 12288 r
cal_order-Least_example = cal_order-Least 12288 (omega arith)

buddy_init-Started_example : Started 0x80400000 0x8E000000 (buddy_init [] 0x80400000 0x8E000000)
buddy_init-Started_example =
    buddy_init-Started [] 0x80400000 0x8E000000 refl (omega arith) (omega arith)

abbrev small_valid : IsValid small
small_valid =
    (buddy_init-Started [] 0x400000 (0x400000 + page 12) refl (omega arith) (omega arith)).valid

abbrev Seen : Type 0
Seen = ℕ × List ℕ × List ℕ × List ℕ

-- What a call leaves in the lists of orders 1, 2 and 3.
abbrev seen : Result (ℕ × Buddy) → Result Seen
seen r = ◌>>=◌ {S = Seen} r (λ (a, b). ok (a, b.order_list 1, b.order_list 2, b.order_list 3))

-- A request for two pages splits the chunk of order 3 twice, and takes the lowest block.
alloc_test : seen (alloc_pages 8192 small) ≡ ok (0x402000, 0x404000 ∷ [], 0x406000 ∷ [], [])
unfolding alloc_pages alloc_loop take_chunk divide_order split_chunk pop_chunk push_chunk
    double_times cal_order cal_order_loop acquire_if_used release_if_used acquire release add_size
    create_node hash_func buddy_init bfreerange count_pages total_page_loop order_loop
    link_node_list link_loop ℕ_discrete
alloc_test = refl

-- Freeing it merges everything back.
free_test :
    seen (alloc_pages 8192 small >>= λ (a, b). free_pages a b >>= λ b'. ok (a, b'))
    ≡ ok (0x402000, [], [], 0x402000 ∷ [])
unfolding alloc_pages alloc_loop take_chunk divide_order split_chunk pop_chunk push_chunk
    double_times cal_order cal_order_loop acquire_if_used release_if_used acquire release add_size
    create_node hash_func buddy_init bfreerange count_pages total_page_loop order_loop
    link_node_list link_loop ℕ_discrete free_pages free_block remove_size unlink_node merge_order
    unlink_chunk buddy_of join_chunks
free_test = refl

-- One page, handed out.
abbrev entry : NodeList
entry = record { self = 0x200; address = 0x100 }

abbrev node : Node
node = record { self = 0x100; key = 0x1000; value = 4096; list = entry }

abbrev one_page : Buddy
one_page = record {
  order_list = λ _. [];
  max_order = 0;
  vstart = 0x1000;
  use_lock = true;
  locked = false;
  free_node_list = [];
  bucket = update (λ _. []) 1 (node ∷ []);
}

one_page_valid : IsValid one_page
unfolding order_of order_of_loop
one_page_valid = record {
  top = omega arith;
  regions = λ k. tt;
  nodes =
      update_keeps (λ _. All (NodeFits 0x1000 0)) (λ _. []) 1 (node ∷ [])
        (((0, omega arith, omega arith), omega arith, omega arith), tt) (λ _. tt);
  once = λ x. ground (
    arith,
    sum_below-zero (list_cover x) (λ _. []) (λ _. refl) num_orders,
    sum_below-update (nodes_cover x) hashsize (λ _. []) 1 (node ∷ []),
    sum_below-zero (nodes_cover x) (λ _. []) (λ _. refl) hashsize,
  );
  unlocked = refl;
}

free_pages-Freed_example : Freed 0x1000 one_page node
unfolding unlink_node hash_func ℕ_discrete
free_pages-Freed_example = free_pages-Freed 0x1000 one_page one_page_valid {rest = []} refl
