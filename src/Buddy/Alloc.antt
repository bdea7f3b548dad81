-- ===== src/Buddy/Alloc.antt =====
-- The page half of `dmalloc` on a valid allocator: every way that it can end.
use graduation_prj.Base.{
  ◌^◌, ℕ, ◌+◌, ◌≤◌, ◌<◌, ◌≡◌, List, [], false, Result, ok, stop, panic, fault, spin,
}
use graduation_prj.Buddy.Orders.{order_of, Least}
use graduation_prj.Buddy.Defs.{Buddy}
use graduation_prj.Buddy.Merge.{has_chunk}
use graduation_prj.Buddy.Cover.{covers, free_cover}
use graduation_prj.Buddy.Region.{InRegion}
use graduation_prj.Buddy.Valid.{used_cover, IsValid}

-- The block at `ret` was free, is now handed out, and lies in no other block.
pub record Allocated (size : ℕ) (b : Buddy) (ret : ℕ) (b' : Buddy) : Type 0 where
  pub valid : IsValid b'
  pub least : Least 0 size (order_of size)
  pub inside : InRegion b.vstart b.max_order (order_of size) ret
  pub taken : (x : ℕ) → free_cover x b ≡ free_cover x b' + covers x (order_of size) ret
  pub given : (x : ℕ) → used_cover x b' ≡ used_cover x b + covers x (order_of size) ret

-- The ends of `dmalloc`: a block; a panic, when no list has a chunk that is large enough; a null
-- pointer, when no node is left for the size; and the endless loop of calOrder, above 2 ^ 30 bytes.
abbrev pub Outcome : ℕ → Buddy → Result (ℕ × Buddy) → Type 0
Outcome size b (ok (ret, b')) = Allocated size b ret b'
Outcome size b (stop panic) =
    (k : ℕ) → order_of size ≤ k → k ≤ b.max_order → has_chunk (b.order_list k) ≡ false
Outcome size b (stop fault) = b.free_node_list ≡ []
Outcome size b (stop spin) = 2 ^ 30 < size

module _ (size : ℕ) (b : Buddy) (v : IsValid b) (h : 1 ≤ size) (few : size ≤ 2 ^ 30) where
  -- `b` with the lock held, if locks are in use, and with the free lists `f`.
  abbrev held_with : (ℕ → List ℕ) → Buddy
  held_with f = record b { locked = b.use_lock; order_list = f }
