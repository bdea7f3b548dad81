-- ===== src/Buddy/Merge.antt =====
-- buddy.c: mergeOrder, the hash table of sizes, and the page halves of dmalloc and dfree.
use graduation_prj.Base.{
  ℕ, zero, suc, ◌+◌, ◌-◌, ◌/◌, ◌%◌, List, [], ◌∷◌, Option, none, some, Bool, true, false, update,
  leb, ◌==◌, if◌then◌else◌, Result, ok, stop, panic, fault, ◌>>=◌,
}
use graduation_prj.Buddy.Defs.{
  Buddy, Node, pgsize, num_orders, hashsize, double_times, push_chunk, divide_order, cal_order,
  acquire_if_used, release_if_used,
}

-- The walk of `mergeOrder` for its buddy: the list without it, if it is there.
unfoldable pub unlink_chunk : ℕ → List ℕ → Option (List ℕ)
unlink_chunk buddy [] = none
unlink_chunk buddy (candidate ∷ rest) =
    if candidate == buddy
    then some rest
    else elim (unlink_chunk buddy rest) [ none ↦ none | some l ↦ some (candidate ∷ l) ]

-- The buddy of a chunk of `target_order`, and the address of the two merged.
unfoldable pub buddy_of : ℕ → ℕ → ℕ → ℕ × ℕ
buddy_of vstart target_order target =
    let space = double_times (target_order + 1) pgsize in
    if (target - vstart) % space == 0
    then (target + space / 2, target)
    else (target - space / 2, target - space / 2)

-- The two chunks leave the list of `target_order`, and the merged one goes to the list above.
unfoldable pub join_chunks : ℕ → ℕ → List ℕ → Buddy → Buddy
join_chunks target_order merge_address remaining b =
    push_chunk (target_order + 1) merge_address
      (record b { order_list = update b.order_list target_order remaining })

-- `mergeOrder(targetOrder)` with `rounds` entries of `orderList` from `targetOrder` on: at zero the C
-- would read outside the array. An empty list is a null pointer.
unfoldable pub merge_order : ℕ → ℕ → Buddy → Result Buddy
merge_order zero target_order b = stop fault
merge_order (suc rounds) target_order b = elim (b.order_list target_order) [
  | [] ↦ stop fault
  | target ∷ candidates ↦
      let (buddy, merge_address) = buddy_of b.vstart target_order target in
      elim (unlink_chunk buddy candidates) [
        | none ↦ ok b
        | some remaining ↦
            merge_order rounds (target_order + 1)
              (join_chunks target_order merge_address remaining b)
      ]
]

unfoldable pub hash_func : ℕ → ℕ
hash_func key = key % hashsize

unfoldable pub create_node : ℕ → ℕ → Buddy → Result (Node × Buddy)
create_node key value b = elim b.free_node_list [
  | [] ↦ stop fault
  | r ∷ rest ↦ ok (
    record { self = r.address; key = key; value = value; list = r },
    record b { free_node_list = rest },
  )
]

-- Both branches of `addSize` put the new node in front of its bucket.
unfoldable pub add_size : ℕ → ℕ → Buddy → Result Buddy
unfolding create_node hash_func
add_size start size b = create_node start size b >>= λ (node, b').
    let index = hash_func start in
    ok (record b' { bucket = update b'.bucket index (node ∷ b'.bucket index) })

-- The walk of `removeSize` along a bucket.
unfoldable pub unlink_node : ℕ → List Node → Option (Node × List Node)
unlink_node start [] = none
unlink_node start (node ∷ rest) =
    if node.key == start
    then some (node, rest)
    else elim (unlink_node start rest) [ none ↦ none | some (n, l) ↦ some (n, node ∷ l) ]

-- `none` is the result -1.
unfoldable pub remove_size : ℕ → Buddy → Option (ℕ × Buddy)
unfolding unlink_node hash_func
remove_size start b = elim (unlink_node start (b.bucket (hash_func start))) [
  | none ↦ none
  | some (node, rest) ↦ some (
    node.value,
    record b {
      bucket = update b.bucket (hash_func start) rest;
      free_node_list = node.list ∷ b.free_node_list;
    },
  )
]

abbrev pub has_chunk : List ℕ → Bool
has_chunk [] = false
has_chunk (_ ∷ _) = true

-- What `dmalloc` does once it has found a list with a chunk.
unfoldable pub take_chunk : ℕ → ℕ → ℕ → Buddy → Result (ℕ × Buddy)
take_chunk size target_order alloc_order b =
    divide_order target_order alloc_order b >>= λ (ret, b₁).
    add_size ret size b₁ >>= λ b₂. release_if_used b₂ >>= λ b₃. ok (ret, b₃)

-- The loop of `dmalloc` over `allocOrder <= maxOrder`, with the rounds left.
unfoldable pub alloc_loop : ℕ → ℕ → ℕ → ℕ → Buddy → Result (ℕ × Buddy)
alloc_loop zero size target_order alloc_order b = release_if_used b >>= λ _. stop panic
alloc_loop (suc rounds) size target_order alloc_order b =
    let next = alloc_loop rounds size target_order (alloc_order + 1) b in
    if has_chunk (b.order_list alloc_order)
    then take_chunk size target_order alloc_order b
    else next

-- `dmalloc` for a size above half a page.
unfoldable pub alloc_pages : ℕ → Buddy → Result (ℕ × Buddy)
alloc_pages size b = acquire_if_used b >>= λ b'.
    cal_order size >>= λ order. alloc_loop (b'.max_order + 1 - order) size order order b'

-- `dfree` from its lock on: the block of the size recorded goes to its list, and is merged.
unfoldable pub free_block : ℕ → ℕ → Buddy → Result Buddy
free_block address size b = acquire_if_used b >>= λ b'. cal_order size >>= λ order.
    merge_order (num_orders - order) order (push_chunk order address b') >>= λ b''.
    release_if_used b''

-- `dfree` for an address that is no slab object.
unfoldable pub free_pages : ℕ → Buddy → Result Buddy
free_pages address b = elim (remove_size address b) [
  | none ↦ stop panic
  | some (size, b') ↦ if leb size 0 then stop panic else free_block address size b'
]
