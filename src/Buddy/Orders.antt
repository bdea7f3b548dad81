-- ===== src/Buddy/Orders.antt =====
-- `calOrder`: the least order whose blocks hold a request.
use graduation_prj.Base.{
  pow2-pos, leb, false, ◌%◌, ok, stop, spin, if◌then◌else◌, ℕ, zero, suc, ◌+◌, ◌*◌, ◌^◌, ◌≤◌, ◌<◌,
  ◌≡◌, refl, ltb, arith, pow2, Bool-cases, inl, inr, ltb→lt, ltb→le, ℕ_discrete,
}
use Prim.Native.Nat.add
use native.Mathlib.Numerals.{add-one}
use graduation_prj.Buddy.Defs.{pgsize, cal_order, cal_order_loop}

-- The least order whose blocks hold a request of up to 2 ^ 30 bytes.
unfoldable pub order_of_loop : ℕ → ℕ → ℕ → ℕ → ℕ
order_of_loop zero order_size order size = order
order_of_loop (suc rounds) order_size order size =
    let rest = order_of_loop rounds (order_size * 2) (order + 1) size in
    if ltb order_size size then rest else order

unfoldable pub order_of : ℕ → ℕ
order_of size = order_of_loop 18 pgsize 0 size

-- `r` is the least order from `order` on whose blocks hold `size` bytes.
pub record Least (order size r : ℕ) : Type 0 where
  pub from : order ≤ r
  pub holds : size ≤ pow2 r * pgsize
  pub least : (k : ℕ) → order ≤ k → k < r → pow2 k * pgsize < size

order_of_loop-Least :
    (rounds order_size order size : ℕ)
    → order_size ≡ pow2 order * pgsize
    → size ≤ pow2 (rounds + order) * pgsize
    → Least order size (order_of_loop rounds order_size order size)
unfolding order_of_loop
order_of_loop-Least zero order_size order size e h = record {
  from = omega arith;
  holds = rw (add.zero order) at h;
  least = λ k low high. absurd (omega arith);
}
order_of_loop-Least (suc rounds) order_size order size e h =
    elim (Bool-cases (ltb order_size size)) [
      | inl more ↦
          let shifted : suc rounds + order ≡ rounds + suc order = omega arith in
          let later =
            order_of_loop-Least rounds (order_size * 2) (suc order) size (omega arith)
              (rw shifted at h) in
          rw (more, add-one)
            (record {
              from = omega (arith, later.from);
              holds = later.holds;
              least = λ k low high. elim (ℕ_discrete k order) [
                | yes here ↦ rw here (omega (arith, ltb→lt order_size size more))
                | no other ↦ later.least k (omega arith) high
              ];
            })
      | inr done ↦ rw done (record {
        from = omega arith;
        holds = omega (arith, ltb→le order_size size done);
        least = λ k low high. absurd (omega arith);
      })
    ]

pub order_of-Least : (size : ℕ) → size ≤ 2 ^ 30 → Least 0 size (order_of size)
unfolding order_of
order_of-Least size h = order_of_loop-Least 18 pgsize 0 size refl h

not_negative : (order_size size : ℕ) → order_size ≤ 2 ^ 29 → leb (2 ^ 31) order_size ≡ false
not_negative order_size size small = ground (arith, small)

cal_order_loop-order_of_loop :
    (rounds order_size order size : ℕ)
    → size ≤ pow2 rounds * order_size
    → pow2 rounds * order_size ≤ 2 ^ 30
    → cal_order_loop (suc (suc rounds)) order_size order size
      ≡ ok (order_of_loop rounds order_size order size)
unfolding cal_order_loop order_of_loop
cal_order_loop-order_of_loop zero order_size order size le top = ground (arith, le, top)
cal_order_loop-order_of_loop (suc rounds) order_size order size le top =
    let small : order_size ≤ 2 ^ 29 = grind (arith, top, pow2-pos rounds) in
    let twice : order_size * 2 % 2 ^ 32 ≡ order_size * 2 = omega (arith, small) in
    let e : pow2 rounds * (order_size * 2) ≡ pow2 (suc rounds) * order_size = grind arith in
    rw twice (elim (Bool-cases (ltb order_size size)) [
      | inl more ↦ rw more (
          rw (not_negative order_size size small) (
            cal_order_loop-order_of_loop rounds (order_size * 2) (order + 1) size
              (omega (arith, le, e)) (omega (arith, top, e))))
      | inr done ↦ rw done (rw (not_negative order_size size small) refl)
    ])

-- For a request of up to 2 ^ 30 bytes `calOrder` ends.
pub cal_order-order_of : (size : ℕ) → size ≤ 2 ^ 30 → cal_order size ≡ ok (order_of size)
unfolding cal_order order_of
cal_order-order_of size h = cal_order_loop-order_of_loop 18 pgsize 0 size h (omega arith)

-- Above it does not.
pub cal_order-spin : (size : ℕ) → 2 ^ 30 < size → cal_order size ≡ stop spin
unfolding cal_order cal_order_loop
cal_order-spin size h = ground (arith, h)

-- For a request of up to 2^30 bytes `calOrder` ends, and returns the least order whose blocks are large
-- enough.
pub cal_order-Least :
    (size : ℕ) → size ≤ 2 ^ 30 → (r : ℕ) × (cal_order size ≡ ok r) × Least 0 size r
cal_order-Least size h = (order_of size, cal_order-order_of size h, order_of-Least size h)
