-- ===== src/Buddy/Defs.antt =====
-- buddy.c and buddy.h: the state, and one function for each of the C functions. A linked list of
-- free chunks is the list of their addresses, head first; the order array is a function.
use graduation_prj.Base.{
  ℕ, zero, suc, ◌+◌, ◌*◌, List, [], ◌∷◌, Bool, true, false, update, ltb, leb, ◌||◌, ◌%◌, ◌^◌, ◌==◌,
  if◌then◌else◌, Result, ok, stop, panic, fault, spin, ◌>>=◌,
}

abbrev pub pgsize : ℕ
pgsize = 4096

-- `orderList` has 20 entries.
abbrev pub num_orders : ℕ
num_orders = 20

abbrev pub hashsize : ℕ
hashsize = 3

-- `struct NODELIST`: its own address, and the address of the node that it stands for.
pub record NodeList : Type 0 where
  pub self : ℕ
  pub address : ℕ

-- `struct NODE`: its own address, and its fields other than `next`.
pub record Node : Type 0 where
  pub self : ℕ
  pub key : ℕ
  pub value : ℕ
  pub list : NodeList

-- `kmemAlloc`, with the hash table and the list of unused nodes.
pub record Buddy : Type 0 where
  pub order_list : ℕ → List ℕ
  pub max_order : ℕ
  pub vstart : ℕ
  pub use_lock : Bool
  pub locked : Bool
  pub free_node_list : List NodeList
  pub bucket : ℕ → List Node

-- `acquire` and `release` of `buddyLock` by one processor: a second acquire, or a release of a lock
-- that is not held, is a panic.
unfoldable pub acquire : Buddy → Result Buddy
acquire b = if b.locked then stop panic else ok (record b { locked = true })

unfoldable pub release : Buddy → Result Buddy
release b = if b.locked then ok (record b { locked = false }) else stop panic

unfoldable pub acquire_if_used : Buddy → Result Buddy
unfolding acquire
acquire_if_used b = if b.use_lock then acquire b else ok b

unfoldable pub release_if_used : Buddy → Result Buddy
unfolding release
release_if_used b = if b.use_lock then release b else ok b

-- `orderSize < size` for an `int` of these 32 bits and a size that is not negative.
abbrev pub int_lt : ℕ → ℕ → Bool
int_lt order_size size = leb (2 ^ 31) order_size || ltb order_size size

-- The loop of `calOrder`, with its rounds: after 20 doublings of a page `orderSize` is 0 and stays 0.
unfoldable pub cal_order_loop : ℕ → ℕ → ℕ → ℕ → Result ℕ
cal_order_loop zero order_size order size = if int_lt order_size size then stop spin else ok order
cal_order_loop (suc rounds) order_size order size =
    let rest = cal_order_loop rounds (order_size * 2 % 2 ^ 32) (order + 1) size in
    if int_lt order_size size then rest else ok order

unfoldable pub cal_order : ℕ → Result ℕ
cal_order size = cal_order_loop 20 pgsize 0 size

-- `while(--cnt) space *= 2;` makes one round fewer than `cnt`.
unfoldable pub double_times : ℕ → ℕ → ℕ
double_times zero space = space
double_times (suc n) space = double_times n (space * 2)

-- `orderList[order].freeList = ret->next`, with the chunk that was its head.
unfoldable pub pop_chunk : ℕ → List ℕ → Buddy → Result (ℕ × Buddy)
pop_chunk order [] b = stop fault
pop_chunk order (chunk ∷ rest) b =
    ok (chunk, record b { order_list = update b.order_list order rest })

-- `p->next = orderList[order].freeList; orderList[order].freeList = p`
unfoldable pub push_chunk : ℕ → ℕ → Buddy → Buddy
push_chunk order chunk b = record b {
  order_list = update b.order_list order (chunk ∷ b.order_list order);
}

-- The body of `divideOrder` for a chunk of order `suc order` that has to be split: the upper half,
-- then the lower half, go to the front of the list below.
unfoldable pub split_chunk : ℕ → Buddy → Result Buddy
split_chunk order b = pop_chunk (suc order) (b.order_list (suc order)) b >>= λ (chunk, b').
    let space = double_times order 1 in
    let address = chunk + space * pgsize in
    ok (push_chunk order chunk (push_chunk order address b'))

-- `divideOrder(targetOrder, allocOrder)`. The code never calls it with `targetOrder` above
-- `allocOrder`; its `while(--cnt)` would not end at 0.
unfoldable pub divide_order : ℕ → ℕ → Buddy → Result (ℕ × Buddy)
divide_order target_order zero b =
    if target_order == 0 then pop_chunk 0 (b.order_list 0) b else stop spin
divide_order target_order (suc order) b =
    let split = split_chunk order b >>= λ b'. divide_order target_order order b' in
    if target_order == suc order then pop_chunk (suc order) (b.order_list (suc order)) b else split
