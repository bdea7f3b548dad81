-- ===== src/Buddy/Free.antt =====
-- The page half of `dfree` on a valid allocator.
use graduation_prj.Base.{
  ℕ, ◌+◌, ◌-◌, ◌≤◌, ◌≡◌, refl, ap, ◌∙◌, update_same, false, List, ◌∷◌, All, update_keeps, ok, stop,
  panic, some, none, arith, leb,
}
use mathlib.Core.Path.{subst}
use graduation_prj.Buddy.Orders.{order_of, cal_order-order_of}
use graduation_prj.Buddy.Defs.{Buddy, Node, num_orders, push_chunk, release_if_used}
use graduation_prj.Buddy.Merge.{
  unlink_node, remove_size, hash_func, merge_order, free_block, free_pages,
}
use graduation_prj.Buddy.Cover.{covers, free_cover, free_cover-push_chunk}
use graduation_prj.Buddy.Region.{InRegion, InRegion-le, SameRest, push_chunk-Regions}
use graduation_prj.Buddy.Merging.{Merged, merge_order-Merged}
use graduation_prj.Buddy.Valid.{
  used_cover, NodeFits, IsValid, acquire_if_used-eq, release_if_used-eq, Unlinked,
  unlink_node-Unlinked, without_size, used_cover-without_size,
}

-- `free_pages` gave back the block that `node` records at `address`.
pub record Freed (address : ℕ) (b : Buddy) (node : Node) : Type 0 where
  pub after : Buddy
  pub runs : free_pages address b ≡ ok after
  pub valid : IsValid after
  pub returned :
      (x : ℕ) → free_cover x after ≡ free_cover x b + covers x (order_of node.value) address
  pub forgotten :
      (x : ℕ) → used_cover x b ≡ used_cover x after + covers x (order_of node.value) address

pub remove_size-eq :
    (address : ℕ) (b : Buddy) {node : Node} {rest : List Node}
    → unlink_node address (b.bucket (hash_func address)) ≡ some (node, rest)
    → remove_size address b ≡ some (node.value, without_size address node rest b)
unfolding remove_size
remove_size-eq address b e = ground arith

-- Freeing an address that was not handed out is a panic.
pub free_pages-unknown :
    (address : ℕ) (b : Buddy)
    → unlink_node address (b.bucket (hash_func address)) ≡ none
    → free_pages address b ≡ stop panic
unfolding free_pages remove_size
free_pages-unknown address b e = ground arith

leb-zero : (n : ℕ) → 1 ≤ n → leb n 0 ≡ false
leb-zero n h = ground arith

free_pages-eq :
    (address : ℕ) (b : Buddy) {node : Node} {rest : List Node}
    → unlink_node address (b.bucket (hash_func address)) ≡ some (node, rest)
    → 1 ≤ node.value
    → free_pages address b ≡ free_block address node.value (without_size address node rest b)
unfolding free_pages
free_pages-eq address b {node} e h =
    ground (arith, remove_size-eq address b e, leb-zero node.value h)

pub release_if_used-same :
    (b after : Buddy)
    → SameRest b after
    → b.locked ≡ b.use_lock
    → release_if_used after ≡ ok (record b { order_list = after.order_list; locked = false })
release_if_used-same b after same held =
    ap release_if_used same ∙ release_if_used-eq (record b { order_list = after.order_list }) held

module _ (address : ℕ) (b : Buddy) (v : IsValid b) {node : Node} {rest : List Node}
    (u : Unlinked address (b.bucket (hash_func address)) node rest) where
  order : ℕ
  order = order_of node.value

  -- The state in which `mergeOrder` is called.
  pushed : Buddy
  pushed =
      push_chunk order address (record (without_size address node rest b) { locked = b.use_lock })

  fits : NodeFits b.vstart b.max_order node × All (NodeFits b.vstart b.max_order) rest
  fits = u.fits b.vstart b.max_order (v.nodes (hash_func address))

  inside : InRegion b.vstart b.max_order order address
  unfolding order
  inside = subst (InRegion b.vstart b.max_order order) u.key fits.0.0

  order-le : order ≤ b.max_order
  order-le = InRegion-le b.vstart b.max_order order address inside

  merging : Merged b.vstart b.max_order pushed (merge_order (num_orders - order) order pushed)
  unfolding pushed push_chunk
  merging =
      merge_order-Merged (num_orders - order) order b.max_order pushed
        (address ∷ b.order_list order) (omega (arith, order-le, v.top)) order-le v.top
        (update_same b.order_list order (address ∷ b.order_list order)) refl
        (push_chunk-Regions b.vstart b.max_order order address
          (record (without_size address node rest b) { locked = b.use_lock }) inside v.regions)

-- An address that is recorded as handed out is freed: the call returns, the allocator stays valid, and
-- exactly that block moves from the blocks handed out to the free chunks.
pub free_pages-Freed :
    (address : ℕ) (b : Buddy) (v : IsValid b) {node : Node} {rest : List Node}
    → unlink_node address (b.bucket (hash_func address)) ≡ some (node, rest)
    → Freed address b node
unfolding free_block push_chunk pushed order
free_pages-Freed address b v {node} {rest} e =
    let u = unlink_node-Unlinked address (b.bucket (hash_func address)) e in
    let m = merging address b v u in
    let b₁ : Buddy = without_size address node rest b in
    let f : ℕ → List ℕ = m.after.order_list in
    let fit = fits address b v u in
    let cover : (x : ℕ)
        → free_cover x m.after ≡ free_cover x b + covers x (order_of node.value) address =
      λ x.
        m.cover x
        ∙ free_cover-push_chunk x (order address b v u) address (record b₁ { locked = b.use_lock })
            (omega (arith, order-le address b v u, v.top)) in
    record {
      after = record b₁ { order_list = f; locked = false };
      runs =
          rw
            (
              free_pages-eq address b e fit.0.1,
              acquire_if_used-eq b₁ v.unlocked,
              cal_order-order_of node.value fit.0.2,
              m.runs,
            )
            (release_if_used-same (pushed address b v u) m.after m.same refl);
      valid = record {
        top = v.top;
        regions = m.regions;
        nodes =
            update_keeps (λ _. All (NodeFits b.vstart b.max_order)) b.bucket (hash_func address)
              rest fit.1 v.nodes;
        once =
            λ x. omega (arith, v.once x, cover x, used_cover-without_size x address b node rest e);
        unlocked = refl;
      };
      returned = cover;
      forgotten = λ x. used_cover-without_size x address b node rest e;
    }
