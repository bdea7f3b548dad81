-- ===== src/Buddy/Region.antt =====
-- Where chunks lie: a chunk of an order starts at a multiple of its size from `vstart`, inside the
-- managed memory, and `divideOrder` keeps that.
use graduation_prj.Base.{
  ℕ, zero, suc, ◌+◌, ◌*◌, ◌≤◌, ◌≡◌, refl, List, [], ◌∷◌, update, All, update_keeps, update_same,
  ◌==◌, true, ok, arith, pow2, pow2_mono, Bool-cases, inl, inr, ==→eq, ==→ne,
}
use native.Mathlib.Nat.{mul-one}
use graduation_prj.Buddy.Defs.{
  Buddy, pgsize, double_times, pop_chunk, push_chunk, split_chunk, divide_order,
}
use graduation_prj.Buddy.Merge.{has_chunk}
use graduation_prj.Buddy.Cover.{double_times-eq}

-- The chunk is the `i`-th of its order, counted from `vstart`, and ends inside the memory.
abbrev pub InRegion : ℕ → ℕ → ℕ → ℕ → Type 0
InRegion vstart max_order order chunk =
    (i : ℕ) × (chunk ≡ vstart + i * (pow2 order * pgsize)) × (suc i * pow2 order ≤ pow2 max_order)

abbrev pub Regions : ℕ → ℕ → (ℕ → List ℕ) → Type 0
Regions vstart max_order f = (order : ℕ) → All (InRegion vstart max_order order) (f order)

-- Only the free lists differ.
abbrev pub SameRest : Buddy → Buddy → Type 0
SameRest b b' = b' ≡ record b { order_list = b'.order_list }

InRegion-lower :
    (v max order chunk : ℕ) → InRegion v max (suc order) chunk → InRegion v max order chunk
InRegion-lower v max order chunk (i, at, fits) = (2 * i, omega arith, omega arith)

InRegion-upper :
    (v max order chunk : ℕ)
    → InRegion v max (suc order) chunk
    → InRegion v max order (chunk + pow2 order * pgsize)
InRegion-upper v max order chunk (i, at, fits) = (2 * i + 1, omega arith, omega arith)

-- A chunk inside the memory has an order up to the top.
pub InRegion-le : (v max order chunk : ℕ) → InRegion v max order chunk → order ≤ max
InRegion-le v max order chunk (i, at, fits) = pow2_mono order max (omega arith)

pub push_chunk-Regions :
    (v max order chunk : ℕ) (b : Buddy)
    → InRegion v max order chunk
    → Regions v max b.order_list
    → Regions v max (push_chunk order chunk b).order_list
unfolding push_chunk
push_chunk-Regions v max order chunk b h r =
    update_keeps (λ k. All (InRegion v max k)) b.order_list order (chunk ∷ b.order_list order)
      (h, r order) r

has_chunk-push_chunk :
    (order chunk : ℕ) (b : Buddy) → has_chunk ((push_chunk order chunk b).order_list order) ≡ true
unfolding push_chunk
has_chunk-push_chunk order chunk b =
    rw (update_same b.order_list order (chunk ∷ b.order_list order))

pub push_chunk-SameRest : (order chunk : ℕ) (b : Buddy) → SameRest b (push_chunk order chunk b)
unfolding push_chunk
push_chunk-SameRest order chunk b = refl

module _ (v max : ℕ) where
  -- A list with a chunk gives it up.
  record Popped (order : ℕ) (b : Buddy) : Type 0 where
    chunk : ℕ
    after : Buddy
    runs : pop_chunk order (b.order_list order) b ≡ ok (chunk, after)
    same : SameRest b after
    inside : InRegion v max order chunk
    regions : Regions v max after.order_list

  pop_chunk-Popped :
      (order : ℕ) (b : Buddy) (chunks : List ℕ)
      → b.order_list order ≡ chunks
      → has_chunk chunks ≡ true
      → Regions v max b.order_list
      → Popped order b
  unfolding pop_chunk
  pop_chunk-Popped order b [] e h r = cc
  pop_chunk-Popped order b (chunk ∷ rest) e h r =
      let here : All (InRegion v max order) (chunk ∷ rest) = rw e at (r order) in
      record {
        chunk = chunk;
        after = record b { order_list = update b.order_list order rest };
        runs = rw e;
        same = refl;
        inside = here.0;
        regions = update_keeps (λ k. All (InRegion v max k)) b.order_list order rest here.1 r;
      }

  record Halved (order : ℕ) (b : Buddy) : Type 0 where
    after : Buddy
    runs : split_chunk order b ≡ ok after
    same : SameRest b after
    regions : Regions v max after.order_list
    chunks : has_chunk (after.order_list order) ≡ true

  split_chunk-Halved :
      (order : ℕ) (b : Buddy)
      → has_chunk (b.order_list (suc order)) ≡ true
      → Regions v max b.order_list
      → Halved order b
  unfolding split_chunk
  split_chunk-Halved order b h r =
      let p = pop_chunk-Popped (suc order) b _ refl h r in
      let upper : ℕ = p.chunk + double_times order 1 * pgsize in
      let b₁ : Buddy = push_chunk order upper p.after in
      record {
        after = push_chunk order p.chunk b₁;
        runs = rw p.runs;
        same = ground (
          arith,
          p.same,
          push_chunk-SameRest order upper p.after,
          push_chunk-SameRest order p.chunk b₁,
        );
        regions =
            push_chunk-Regions v max order p.chunk b₁ (InRegion-lower v max order p.chunk p.inside)
              (push_chunk-Regions v max order upper p.after
                (rw (double_times-eq order 1, mul-one)
                  (InRegion-upper v max order p.chunk p.inside))
                p.regions);
        chunks = has_chunk-push_chunk order p.chunk b₁;
      }

  pub record Divided (target_order order : ℕ) (b : Buddy) : Type 0 where
    pub ret : ℕ
    pub after : Buddy
    pub runs : divide_order target_order order b ≡ ok (ret, after)
    pub same : SameRest b after
    pub inside : InRegion v max target_order ret
    pub regions : Regions v max after.order_list

  -- With a chunk of an order that is large enough, the division returns a block of the target order.
  pub divide_order-Divided :
      (target_order order : ℕ) (b : Buddy)
      → target_order ≤ order
      → has_chunk (b.order_list order) ≡ true
      → Regions v max b.order_list
      → Divided target_order order b
  unfolding divide_order
  divide_order-Divided target_order zero b le h r =
      let p = pop_chunk-Popped 0 b _ refl h r in
      let none_left : target_order ≡ 0 = omega arith in
      record {
        ret = p.chunk;
        after = p.after;
        runs = rw none_left p.runs;
        same = p.same;
        inside = rw none_left p.inside;
        regions = p.regions;
      }
  divide_order-Divided target_order (suc order) b le h r =
      elim (Bool-cases (target_order == suc order)) [
        | inl equal ↦
            let p = pop_chunk-Popped (suc order) b _ refl h r in
            record {
              ret = p.chunk;
              after = p.after;
              runs = rw equal p.runs;
              same = p.same;
              inside = rw (==→eq target_order (suc order) equal) p.inside;
              regions = p.regions;
            }
        | inr other ↦
            let s = split_chunk-Halved order b h r in
            let d =
              divide_order-Divided target_order order s.after
                (omega (arith, ==→ne target_order (suc order) other)) s.chunks s.regions in
            record {
              ret = d.ret;
              after = d.after;
              runs = rw (other, s.runs) d.runs;
              same = ground (arith, s.same, d.same);
              inside = d.inside;
              regions = d.regions;
            }
      ]
