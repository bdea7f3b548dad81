-- ===== src/Buddy/Cover.antt =====
-- Which addresses the free chunks and the blocks handed out cover, and that dividing a chunk loses
-- none and doubles none.
use graduation_prj.Base.{
  ℕ, zero, suc, ◌+◌, ◌*◌, ◌<◌, ◌≡◌, List, [], ◌∷◌, update, leb, ltb, ◌==◌, ◌&&◌, if◌then◌else◌, ok,
  arith, pow2, pow2-pos, sum_below, sum_below-update, Bool-cases, ok_of_bind, inl, inr, ==→eq,
}
use graduation_prj.Buddy.Defs.{
  Buddy, pgsize, num_orders, double_times, pop_chunk, push_chunk, split_chunk, divide_order,
}

-- 1 if the chunk of `order` at `chunk` holds the address `x`, and 0 if not.
abbrev pub covers : ℕ → ℕ → ℕ → ℕ
covers x order chunk = if leb chunk x && ltb x (chunk + pow2 order * pgsize) then 1 else 0

abbrev pub list_cover : ℕ → ℕ → List ℕ → ℕ
list_cover x order [] = 0
list_cover x order (chunk ∷ rest) = covers x order chunk + list_cover x order rest

-- How many free chunks hold the address `x`.
abbrev pub free_cover : ℕ → Buddy → ℕ
free_cover x b = sum_below (list_cover x) num_orders b.order_list

pub double_times-eq : (n space : ℕ) → double_times n space ≡ pow2 n * space
unfolding double_times
double_times-eq zero space = omega arith
double_times-eq (suc n) space = omega (arith, double_times-eq n (space * 2))

pub pop_chunk-eq-ok :
    (order : ℕ) (chunks : List ℕ) (b : Buddy) {chunk : ℕ} {b' : Buddy}
    → pop_chunk order chunks b ≡ ok (chunk, b')
    → (rest : List ℕ) × (chunks ≡ chunk ∷ rest)
      × (b' ≡ record b { order_list = update b.order_list order rest })
unfolding pop_chunk
pop_chunk-eq-ok order [] b e = cc
pop_chunk-eq-ok order (chunk ∷ rest) b e = (rest, ground arith, ground arith)

pub free_cover-pop_chunk :
    (x order : ℕ) (b : Buddy) {chunk : ℕ} {b' : Buddy}
    → order < num_orders
    → pop_chunk order (b.order_list order) b ≡ ok (chunk, b')
    → free_cover x b ≡ free_cover x b' + covers x order chunk
free_cover-pop_chunk x order b lt e =
    let (rest, was, now) = pop_chunk-eq-ok order (b.order_list order) b e in
    ground (arith, sum_below-update (list_cover x) num_orders b.order_list order rest lt)

pub free_cover-push_chunk :
    (x order chunk : ℕ) (b : Buddy)
    → order < num_orders
    → free_cover x (push_chunk order chunk b) ≡ free_cover x b + covers x order chunk
unfolding push_chunk
free_cover-push_chunk x order chunk b lt = omega (
  arith,
  sum_below-update (list_cover x) num_orders b.order_list order (chunk ∷ b.order_list order) lt,
)

-- A chunk of order `suc order` covers what its two halves cover.
pub covers-halves :
    (x order chunk : ℕ)
    → covers x (suc order) chunk
      ≡ covers x order chunk + covers x order (chunk + pow2 order * pgsize)
covers-halves x order chunk = ground (arith, pow2-pos order)

pub free_cover-split_chunk :
    (x order : ℕ) (b : Buddy) {b' : Buddy}
    → suc order < num_orders
    → split_chunk order b ≡ ok b'
    → free_cover x b' ≡ free_cover x b
unfolding split_chunk
free_cover-split_chunk x order b lt e =
    let ((chunk, b₁), popped, rest) =
      ok_of_bind (pop_chunk (suc order) (b.order_list (suc order)) b) _ e in
    let upper : ℕ = chunk + double_times order 1 * pgsize in
    let b₂ : Buddy = push_chunk order upper b₁ in
    ground (
      arith,
      free_cover-pop_chunk x (suc order) b lt popped,
      free_cover-push_chunk x order upper b₁ (omega arith),
      free_cover-push_chunk x order chunk b₂ (omega arith),
      double_times-eq order 1,
      covers-halves x order chunk,
    )

-- Dividing a chunk for a request moves exactly the block returned out of the free chunks.
pub free_cover-divide_order :
    (x target_order order : ℕ) (b : Buddy) {ret : ℕ} {b' : Buddy}
    → order < num_orders
    → divide_order target_order order b ≡ ok (ret, b')
    → free_cover x b ≡ free_cover x b' + covers x target_order ret
unfolding divide_order
free_cover-divide_order x target_order zero b {ret} lt e = elim (Bool-cases (target_order == 0)) [
  | inl same ↦ rw (==→eq target_order 0 same) (free_cover-pop_chunk x 0 b lt (rw same at e))
  | inr other ↦ ground arith
]
free_cover-divide_order x target_order (suc order) b lt e =
    elim (Bool-cases (target_order == suc order)) [
      | inl same ↦
          rw (==→eq target_order (suc order) same)
            (free_cover-pop_chunk x (suc order) b lt (rw same at e))
      | inr other ↦
          let (b₁, split, rest) =
            ok_of_bind (split_chunk order b) (divide_order target_order order) (rw other at e) in
          omega (
            arith,
            free_cover-split_chunk x order b lt split,
            free_cover-divide_order x target_order order b₁ (omega arith) rest,
          )
    ]
