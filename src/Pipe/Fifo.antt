-- ===== src/Pipe/Fifo.antt =====
-- The bytes in a pipe, oldest first, and what each call does to them, also where the counters wrap.
use graduation_prj.Base.{
  ℕ, zero, suc, ◌+◌, ◌-◌, ◌%◌, ◌≤◌, ◌<◌, ◌≡◌, refl, ap, ◌∙◌, true, false, List, [], ◌∷◌, ◌++◌,
  length, update, update_same, update_other, arith,
}
use mathlib.Core.Path.{ap₂}
use graduation_prj.Pipe.Defs.{Pipe, pipesize, uint_mod, is_full, put_byte}

-- How many bytes are in the pipe.
abbrev pub count : Pipe → ℕ
count p = (p.nwrite + uint_mod - p.nread) % uint_mod

-- The `n` bytes from the counter `r` on.
abbrev pub window : (ℕ → ℕ) → ℕ → ℕ → List ℕ
window bytes r zero = []
window bytes r (suc n) = bytes (r % pipesize) ∷ window bytes ((r + 1) % uint_mod) n

abbrev pub contents : Pipe → List ℕ
contents p = window p.bytes p.nread (count p)

pub record IsValid (p : Pipe) : Type 0 where
  pub read_in : p.nread < uint_mod
  pub write_in : p.nwrite < uint_mod
  pub fits : count p ≤ pipesize

length-window : (bytes : ℕ → ℕ) (r n : ℕ) → length (window bytes r n) ≡ n
length-window bytes r zero = refl
length-window bytes r (suc n) = ap suc (length-window bytes ((r + 1) % uint_mod) n)

pub length-contents : (p : Pipe) → length (contents p) ≡ count p
length-contents p = length-window p.bytes p.nread (count p)

-- Writing just past a window that leaves room adds the byte at its end.
window-update :
    (bytes : ℕ → ℕ) (c n r i : ℕ)
    → r < uint_mod
    → n < pipesize
    → i ≡ (r + n) % uint_mod % pipesize
    → window (update bytes i c) r (suc n) ≡ window bytes r n ++ (c ∷ [])
window-update bytes c zero r i hr hn e =
    ap (λ b. b ∷ []) (ap (update bytes i c) (omega arith) ∙ update_same bytes i c)
window-update bytes c (suc n) r i hr hn e =
    ap₂ ◌∷◌ (update_other bytes i (r % pipesize) c (omega arith))
      (window-update bytes c n ((r + 1) % uint_mod) i (omega arith) (omega arith) (omega arith))

-- `window` matches on the number of bytes.
pub window-suc :
    (bytes : ℕ → ℕ) (r n m : ℕ)
    → n ≡ suc m
    → window bytes r n ≡ bytes (r % pipesize) ∷ window bytes ((r + 1) % uint_mod) m
window-suc bytes r n m e = ap (window bytes r) e

is_full-count : (p : Pipe) → IsValid p → is_full p ≡ false → count p < pipesize
is_full-count p v h = ground arith

pub count-full : (p : Pipe) → IsValid p → is_full p ≡ true → count p ≡ pipesize
count-full p v h = ground arith

put_byte-count :
    (c : ℕ) (p : Pipe) → IsValid p → is_full p ≡ false → count (put_byte c p) ≡ suc (count p)
unfolding put_byte
put_byte-count c p v h = ground (arith, is_full-count p v h)

pub put_byte-IsValid : (c : ℕ) (p : Pipe) → IsValid p → is_full p ≡ false → IsValid (put_byte c p)
put_byte-IsValid c p v h = record {
  read_in = unfold put_byte in v.read_in;
  write_in = unfold put_byte in omega arith;
  fits = omega (arith, put_byte-count c p v h, is_full-count p v h);
}

pub contents-put_byte :
    (c : ℕ) (p : Pipe)
    → IsValid p
    → is_full p ≡ false
    → contents (put_byte c p) ≡ contents p ++ (c ∷ [])
unfolding put_byte
contents-put_byte c p v h =
    ap (window (update p.bytes (p.nwrite % pipesize) c) p.nread) (put_byte-count c p v h)
    ∙ window-update p.bytes c (count p) p.nread (p.nwrite % pipesize) v.read_in
        (is_full-count p v h) (omega (arith, v.read_in))
