-- ===== src/Buddy/Valid.antt =====
-- The invariant of the allocator, and what its helpers (the lock, the table of sizes) do to it.
use graduation_prj.Base.{
  ◌^◌, ℕ, ◌+◌, ◌≤◌, ◌<◌, ◌≡◌, List, [], ◌∷◌, false, update, All, ok, stop, fault, some, arith,
  sum_below, sum_below-update, Option-cases, Bool-cases, inl, inr, ==→eq, ◌==◌, ap, ◌∙◌,
}
use mathlib.Core.Path.{subst₂}
use native.Mathlib.Nat.{add_comm}
use graduation_prj.Buddy.Orders.{order_of}
use graduation_prj.Buddy.Defs.{
  Buddy, Node, NodeList, num_orders, hashsize, acquire, release, acquire_if_used, release_if_used,
}
use graduation_prj.Buddy.Merge.{hash_func, create_node, add_size, unlink_node}
use graduation_prj.Buddy.Cover.{covers, free_cover}
use graduation_prj.Buddy.Region.{InRegion, Regions}

-- The blocks of a bucket: each holds the address handed out, and the size asked for.
abbrev pub nodes_cover : ℕ → ℕ → List Node → ℕ
nodes_cover x index [] = 0
nodes_cover x index (node ∷ rest) =
    covers x (order_of node.value) node.key + nodes_cover x index rest

-- How many blocks that are handed out hold the address `x`.
abbrev pub used_cover : ℕ → Buddy → ℕ
used_cover x b = sum_below (nodes_cover x) hashsize b.bucket

abbrev pub NodeFits : ℕ → ℕ → Node → Type 0
NodeFits vstart max_order node =
    InRegion vstart max_order (order_of node.value) node.key
    × (1 ≤ node.value)
    × (node.value ≤ 2 ^ 30)

-- Every chunk, free or handed out, is one of its order inside the memory; no address lies in two.
pub record IsValid (b : Buddy) : Type 0 where
  pub top : b.max_order < num_orders
  pub regions : Regions b.vstart b.max_order b.order_list
  pub nodes : (i : ℕ) → All (NodeFits b.vstart b.max_order) (b.bucket i)
  pub once : (x : ℕ) → free_cover x b + used_cover x b ≤ 1
  pub unlocked : b.locked ≡ false

pub hash_func-lt : (key : ℕ) → hash_func key < hashsize
unfolding hash_func
hash_func-lt key = omega arith

pub acquire_if_used-eq :
    (b : Buddy) → b.locked ≡ false → acquire_if_used b ≡ ok (record b { locked = b.use_lock })
unfolding acquire_if_used acquire
acquire_if_used-eq b free = ground arith

pub release_if_used-eq :
    (b : Buddy) → b.locked ≡ b.use_lock → release_if_used b ≡ ok (record b { locked = false })
unfolding release_if_used release
release_if_used-eq b held = ground arith

-- The state after `addSize` with the unused node `r`.
abbrev pub with_size : ℕ → ℕ → NodeList → List NodeList → Buddy → Buddy
with_size start size r rest b =
    let node : Node = record { self = r.address; key = start; value = size; list = r } in
    record b {
      free_node_list = rest;
      bucket = update b.bucket (hash_func start) (node ∷ b.bucket (hash_func start));
    }

pub add_size-eq :
    (start size : ℕ) (b : Buddy) (r : NodeList) (rest : List NodeList)
    → b.free_node_list ≡ r ∷ rest
    → add_size start size b ≡ ok (with_size start size r rest b)
unfolding add_size create_node
add_size-eq start size b r rest e = ground arith

pub add_size-none :
    (start size : ℕ) (b : Buddy) → b.free_node_list ≡ [] → add_size start size b ≡ stop fault
unfolding add_size create_node
add_size-none start size b e = ground arith

pub used_cover-with_size :
    (x start size : ℕ) (b : Buddy) (r : NodeList) (rest : List NodeList)
    → used_cover x (with_size start size r rest b) ≡ used_cover x b + covers x (order_of size) start
used_cover-with_size x start size b r rest =
    let node : Node = record { self = r.address; key = start; value = size; list = r } in
    omega (
      arith,
      sum_below-update (nodes_cover x) hashsize b.bucket (hash_func start)
          (node ∷ b.bucket (hash_func start)) (hash_func-lt start),
    )

-- What `removeSize` takes out of a bucket.
pub record Unlinked (start : ℕ) (nodes : List Node) (node : Node) (rest : List Node) : Type 0 where
  pub key : node.key ≡ start
  pub cover :
      (x i : ℕ)
      → nodes_cover x i nodes ≡ nodes_cover x i rest + covers x (order_of node.value) start
  pub fits :
      (v max : ℕ) → All (NodeFits v max) nodes → NodeFits v max node × All (NodeFits v max) rest

pub unlink_node-Unlinked :
    (start : ℕ) (nodes : List Node) {node : Node} {rest : List Node}
    → unlink_node start nodes ≡ some (node, rest)
    → Unlinked start nodes node rest
unfolding unlink_node
unlink_node-Unlinked start [] e = cc
unlink_node-Unlinked start (n ∷ nodes) {node} {rest} e = elim (Bool-cases (n.key == start)) [
  | inl found ↦
      let e' : ◌≡◌ {A = Node} n node = ground arith in
      let r' : nodes ≡ rest = ground arith in
      let here : n.key ≡ start = ==→eq n.key start found in
      subst₂ (Unlinked start (n ∷ nodes)) e' r' (record {
        key = here;
        cover = λ x i.
            add_comm (covers x (order_of n.value) n.key) (nodes_cover x i nodes)
            ∙ ap (λ a. nodes_cover x i nodes + covers x (order_of n.value) a) here;
        fits = λ v max h. h;
      })
  | inr other ↦ elim (Option-cases (unlink_node start nodes)) [
    | inl missing ↦ ground arith
    | inr ((m, l), left) ↦
        let e' : ◌≡◌ {A = Node} m node = ground arith in
        let r' : n ∷ l ≡ rest = ground arith in
        let u = unlink_node-Unlinked start nodes left in
        subst₂ (Unlinked start (n ∷ nodes)) e' r' (record {
          key = u.key;
          cover = λ x i. omega (arith, u.cover x i);
          fits = λ v max h. ((u.fits v max h.1).0, (h.0, (u.fits v max h.1).1));
        })
  ]
]

-- The state after `removeSize`.
abbrev pub without_size : ℕ → Node → List Node → Buddy → Buddy
without_size start node rest b = record b {
  bucket = update b.bucket (hash_func start) rest;
  free_node_list = node.list ∷ b.free_node_list;
}

pub used_cover-without_size :
    (x start : ℕ) (b : Buddy) (node : Node) (rest : List Node)
    → unlink_node start (b.bucket (hash_func start)) ≡ some (node, rest)
    → used_cover x b
      ≡ used_cover x (without_size start node rest b) + covers x (order_of node.value) start
used_cover-without_size x start b node rest e = omega (
  arith,
  sum_below-update (nodes_cover x) hashsize b.bucket (hash_func start) rest (hash_func-lt start),
  (unlink_node-Unlinked start (b.bucket (hash_func start)) e).cover x (hash_func start),
)
