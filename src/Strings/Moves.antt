-- ===== src/Strings/Moves.antt =====
-- string.c: memmove and memset against what they are for.
use graduation_prj.Base.{
  ℕ, zero, suc, ◌+◌, ◌-◌, ◌*◌, ◌/◌, ◌%◌, ◌^◌, ◌≤◌, ◌<◌, ◌≡◌, ◌⊎◌, inl, inr, ap, ◌∙◌, ◌&&◌, update,
  ltb, leb, ◌==◌, if◌then◌else◌, arith, Bool-cases, ltb→lt, ltb→le, ==→eq,
}
use graduation_prj.Strings.Defs.{
  Memory, copy_down, copy_up, memmove, stosb, stosl, store_word, four_times, memset,
}

-- The memory after all bytes are moved at once.
abbrev pub moved : ℕ → ℕ → ℕ → Memory → Memory
moved dst src n mem i = if leb dst i && ltb i (dst + n) then mem (i - dst + src) else mem i

abbrev pub filled : ℕ → ℕ → ℕ → Memory → Memory
filled dst c n mem i = if leb dst i && ltb i (dst + n) then c else mem i

copy_down-moved :
    (n d s : ℕ) (mem : Memory) (i : ℕ) → s < d → copy_down n d s mem i ≡ moved d s n mem i
unfolding copy_down
copy_down-moved zero d s mem i lt = ground arith
copy_down-moved (suc n) d s mem i lt =
    copy_down-moved n d s (update mem (d + n) (mem (s + n))) i lt ∙ ground arith

copy_up-moved :
    (n d s : ℕ) (mem : Memory) (i : ℕ)
    → (d ≤ s) ⊎ (s + n ≤ d)
    → copy_up n d s mem i ≡ moved d s n mem i
unfolding copy_up
copy_up-moved zero d s mem i apart = ground arith
copy_up-moved (suc n) d s mem i apart =
    copy_up-moved n (d + 1) (s + 1) (update mem d (mem s)) i (ground (arith, apart)) ∙ ground arith

stosb-filled :
    (n dst c : ℕ) (mem : Memory) (i : ℕ) → stosb n dst c mem i ≡ filled dst (c % 2 ^ 8) n mem i
unfolding stosb
stosb-filled zero dst c mem i = ground arith
stosb-filled (suc n) dst c mem i =
    stosb-filled n (dst + 1) c (update mem dst (c % 2 ^ 8)) i ∙ ground arith

-- memmove is a simultaneous copy: after it every byte of the destination has the value that the source
-- had before, also where the two overlap, and no other byte is changed.
pub memmove-moved :
    (dst src n : ℕ) (mem : Memory) (i : ℕ) → memmove dst src n mem i ≡ moved dst src n mem i
unfolding memmove
memmove-moved dst src n mem i = elim (Bool-cases (ltb src dst)) [
  | inl below ↦ elim (Bool-cases (ltb dst (src + n))) [
    | inl inside ↦ rw below (rw inside (copy_down-moved n dst src mem i (ltb→lt src dst below)))
    | inr past ↦
        rw below (rw past (copy_up-moved n dst src mem i (inr (ltb→le dst (src + n) past))))
  ]
  | inr above ↦ rw above (copy_up-moved n dst src mem i (inl (ltb→le src dst above)))
]

-- The four bytes of the word are the byte.
byte_0 : (c : ℕ) → c < 2 ^ 8 → four_times c % 2 ^ 8 ≡ c
byte_0 c lt = omega (arith, lt)

byte_1 : (c : ℕ) → c < 2 ^ 8 → four_times c / 2 ^ 8 % 2 ^ 8 ≡ c
byte_1 c lt = omega (arith, lt)

byte_2 : (c : ℕ) → c < 2 ^ 8 → four_times c / 2 ^ 16 % 2 ^ 8 ≡ c
byte_2 c lt = omega (arith, lt)

byte_3 : (c : ℕ) → c < 2 ^ 8 → four_times c / 2 ^ 24 % 2 ^ 8 ≡ c
byte_3 c lt = omega (arith, lt)

store_four :
    (dst c : ℕ) (mem : Memory) (i : ℕ)
    → c < 2 ^ 8
    → store_word dst (four_times c) mem i ≡ filled dst c 4 mem i
store_four dst c mem i lt =
    rw (byte_0 c lt) (rw (byte_1 c lt) (rw (byte_2 c lt) (rw (byte_3 c lt) (ground arith))))

stosl-filled :
    (n dst c : ℕ) (mem : Memory) (i : ℕ)
    → c < 2 ^ 8
    → stosl n dst (four_times c) mem i ≡ filled dst c (4 * n) mem i
unfolding stosl
stosl-filled zero dst c mem i lt = ground arith
stosl-filled (suc n) dst c mem i lt =
    stosl-filled n (dst + 4) c (store_word dst (four_times c) mem) i lt
    ∙ ap (λ b. if leb (dst + 4) i && ltb i (dst + 4 + 4 * n) then c else b)
        (store_four dst c mem i lt)
    ∙ ground arith

-- memset, which writes words where it can, gives the lowest byte of its argument to every byte of the
-- range and changes no other byte.
memset-filled :
    (dst c n : ℕ) (mem : Memory) (i : ℕ) → memset dst c n mem i ≡ filled dst (c % 2 ^ 8) n mem i
unfolding memset
memset-filled dst c n mem i = elim (Bool-cases (dst % 4 == 0)) [
  | inl start ↦ elim (Bool-cases (n % 4 == 0)) [
    | inl whole ↦
        let len : 4 * (n / 4) ≡ n = omega (arith, ==→eq (n % 4) 0 whole) in
        rw start (
          rw whole (
            stosl-filled (n / 4) dst (c % 2 ^ 8) mem i (omega arith)
            ∙ ap (λ k. filled dst (c % 2 ^ 8) k mem i) len))
    | inr part ↦ rw start (rw part (stosb-filled n dst c mem i))
  ]
  | inr off ↦ rw off (stosb-filled n dst c mem i)
]
