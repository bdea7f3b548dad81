-- ===== src/Strings/Names.antt =====
-- string.c: strings and the names of directory entries, which end with a zero byte or fill their field.
use graduation_prj.Base.{
  ℕ, zero, suc, ◌+◌, ◌≤◌, ◌<◌, ◌≡◌, ◌≢◌, ◌⊎◌, inl, inr, refl, sym, ap, ◌∙◌, false, update, ◌==◌,
  arith, Bool-cases, ==→eq, ==→ne, eq→==,
}
use graduation_prj.Strings.Defs.{Memory, pos, strncmp, pad, strncpy, safe_copy, safestrcpy}

-- The ranges of `n` bytes from `a` and from `b` have no byte in common.
abbrev pub Disjoint : ℕ → ℕ → ℕ → Type 0
Disjoint n a b = (a + n ≤ b) ⊎ (b + n ≤ a)

-- The address is in no range of `n` bytes from `a`.
abbrev pub Outside : ℕ → ℕ → ℕ → Type 0
Outside n a i = (i < a) ⊎ (a + n ≤ i)

pad-Outside : (n s : ℕ) (mem : Memory) (i : ℕ) → Outside n s i → pad n s mem i ≡ mem i
unfolding pad
pad-Outside zero s mem i out = refl
pad-Outside (suc n) s mem i out =
    pad-Outside n (s + 1) (update mem s 0) i (ground (arith, out)) ∙ ground (arith, out)

strncpy-Outside : (n s t : ℕ) (mem : Memory) (i : ℕ) → Outside n s i → strncpy n s t mem i ≡ mem i
unfolding strncpy
strncpy-Outside zero s t mem i out = refl
strncpy-Outside (suc n) s t mem i out =
    let further : Outside n (s + 1) i = ground (arith, out) in
    let here : update mem s (mem t) i ≡ mem i = ground (arith, out) in
    elim (Bool-cases (mem t == 0)) [
      | inl e ↦ rw e (pad-Outside n (s + 1) (update mem s (mem t)) i further ∙ here)
      | inr e ↦ rw e (strncpy-Outside n (s + 1) (t + 1) (update mem s (mem t)) i further ∙ here)
    ]

-- The first byte that strncpy writes stays.
strncpy-first : (n s t : ℕ) (mem : Memory) → strncpy (suc n) s t mem s ≡ mem t
unfolding strncpy
strncpy-first n s t mem =
    let out : Outside n (s + 1) s = inl (omega arith) in
    let here : update mem s (mem t) s ≡ mem t = ground arith in
    elim (Bool-cases (mem t == 0)) [
      | inl e ↦ rw e (pad-Outside n (s + 1) (update mem s (mem t)) s out ∙ here)
      | inr e ↦ rw e (strncpy-Outside n (s + 1) (t + 1) (update mem s (mem t)) s out ∙ here)
    ]

strncpy-next :
    (n s t : ℕ) (mem : Memory)
    → (mem t == 0) ≡ false
    → strncpy (suc n) s t mem ≡ strncpy n (s + 1) (t + 1) (update mem s (mem t))
unfolding strncpy
strncpy-next n s t mem e = rw e refl

strncmp-end : (n p q : ℕ) (mem : Memory) → mem p ≡ 0 → mem q ≡ 0 → strncmp (suc n) p q mem ≡ pos 0
unfolding strncmp
strncmp-end n p q mem e k = rw e (rw k refl)

strncmp-next :
    (n p q : ℕ) (mem : Memory)
    → (mem p == 0) ≡ false
    → mem p ≡ mem q
    → strncmp (suc n) p q mem ≡ strncmp n (p + 1) (q + 1) mem
unfolding strncmp
strncmp-next n p q mem ne e = rw ne (rw (eq→== (mem p) (mem q) e) refl)

-- A name that strncpy copied into a field of n bytes, as dirlink does, compares equal to the name by
-- strncmp with the same n, as namecmp does, whether it ends within the field or fills it. The two
-- ranges of n bytes have no byte in common.
pub strncmp-strncpy :
    (n s t : ℕ) (mem : Memory) → Disjoint n s t → strncmp n s t (strncpy n s t mem) ≡ pos 0
unfolding strncmp
strncmp-strncpy zero s t mem apart = refl
strncmp-strncpy (suc n) s t mem apart =
    let same : strncpy (suc n) s t mem t ≡ mem t =
      strncpy-Outside (suc n) s t mem t (ground (arith, apart)) in
    elim (Bool-cases (mem t == 0)) [
      | inl e ↦
          strncmp-end n s t (strncpy (suc n) s t mem) (strncpy-first n s t mem ∙ ==→eq (mem t) 0 e)
            (same ∙ ==→eq (mem t) 0 e)
      | inr e ↦
          strncmp-next n s t (strncpy (suc n) s t mem)
            (ap (λ b. b == 0) (strncpy-first n s t mem) ∙ e) (strncpy-first n s t mem ∙ sym same)
          ∙ ap (strncmp n (s + 1) (t + 1)) (strncpy-next n s t mem e)
          ∙ strncmp-strncpy n (s + 1) (t + 1) (update mem s (mem t)) (ground (arith, apart))
    ]

-- The `n + 1` bytes from `s` begin with a string: `len` bytes of the source, none of them 0, and a 0,
-- either because the source ends there or because the room does.
pub record Copied (s t n : ℕ) (before after : Memory) : Type 0 where
  pub len : ℕ
  pub room : len ≤ n
  pub copied : (j : ℕ) → j < len → (after (s + j) ≡ before (t + j)) × (before (t + j) ≢ 0)
  pub ends : after (s + len) ≡ 0
  pub whole : (len ≡ n) ⊎ (before (t + len) ≡ 0)
  pub outside : (i : ℕ) → Outside (n + 1) s i → after i ≡ before i

shift : (m : Memory) (a j : ℕ) → m (a + 1 + j) ≡ m (a + suc j)
shift m a j = (let e : a + 1 + j ≡ a + suc j = omega arith in ap m e)

module _ (n s t : ℕ) (mem after : Memory) (apart : Disjoint (suc n + 1) s t) (ne : mem t ≢ 0)
    (c : Copied (s + 1) (t + 1) n (update mem s (mem t)) after) where
  source : (j : ℕ) → j < suc n + 1 → update mem s (mem t) (t + j) ≡ mem (t + j)
  source j lt = ground (arith, apart, lt)

  copied-cons : (j : ℕ) → j < suc c.len → (after (s + j) ≡ mem (t + j)) × (mem (t + j) ≢ 0)
  copied-cons zero lt =
      let first : after (s + 0) ≡ update mem s (mem t) (s + 0) =
        c.outside (s + 0) (inl (omega arith)) in
      (first ∙ ground arith, λ e. ne (ap mem (omega arith) ∙ e))
  copied-cons (suc j) lt =
      let below : suc j < suc n + 1 = omega (arith, lt, c.room) in
      let old : update mem s (mem t) (t + 1 + j) ≡ mem (t + suc j) =
        shift (update mem s (mem t)) t j ∙ source (suc j) below in
      let (same, set) = c.copied j (omega (arith, lt)) in
      (sym (shift after s j) ∙ same ∙ old, λ e. set (old ∙ e))

  -- One more byte in front.
  Copied-cons : Copied s t (suc n) mem after
  Copied-cons = record {
    len = suc c.len;
    room = omega (arith, c.room);
    copied = copied-cons;
    ends = sym (shift after s c.len) ∙ c.ends;
    whole = elim c.whole [
      | inl e ↦ inl (ap suc e)
      | inr e ↦ inr (
          sym (source (suc c.len) (omega (arith, c.room)))
          ∙ sym (shift (update mem s (mem t)) t c.len)
          ∙ e)
    ];
    outside = λ i out. c.outside i (ground (arith, out)) ∙ ground (arith, out);
  }

safe_copy-Copied :
    (n s t : ℕ) (mem : Memory) → Disjoint (n + 1) s t → Copied s t n mem (safe_copy n s t mem)
unfolding safe_copy
safe_copy-Copied zero s t mem apart = record {
  len = 0;
  room = omega arith;
  copied = λ j lt. absurd (omega (arith, lt));
  ends = ground arith;
  whole = inl refl;
  outside = λ i out. ground (arith, out);
}
safe_copy-Copied (suc n) s t mem apart = elim (Bool-cases (mem t == 0)) [
  | inl e ↦ rw e (record {
    len = 0;
    room = omega arith;
    copied = λ j lt. absurd (omega (arith, lt));
    ends = (let z : mem t ≡ 0 = ==→eq (mem t) 0 e in ground (arith, z));
    whole = (let z : mem (t + 0) ≡ 0 = ap mem (omega arith) ∙ ==→eq (mem t) 0 e in inr z);
    outside = λ i out. ground (arith, out);
  })
  | inr e ↦ rw e (
      Copied-cons n s t mem (safe_copy n (s + 1) (t + 1) (update mem s (mem t))) apart
        (==→ne (mem t) 0 e)
        (safe_copy-Copied n (s + 1) (t + 1) (update mem s (mem t)) (ground (arith, apart))))
]

-- safestrcpy into a field of n + 1 bytes, which has no byte in common with the n + 1 bytes at its source,
-- leaves a string in the field that ends with a zero byte there; the string is the source's, whole
-- or cut to n bytes, and no byte outside the field is changed.
pub safestrcpy-Copied :
    (n s t : ℕ) (mem : Memory)
    → Disjoint (n + 1) s t
    → Copied s t n mem (safestrcpy s t (suc n) mem)
safestrcpy-Copied = safe_copy-Copied
