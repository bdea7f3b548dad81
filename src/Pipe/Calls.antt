-- ===== src/Pipe/Calls.antt =====
-- What a stretch of `pipewrite` and of `piperead` does to the bytes in the pipe.
use graduation_prj.Base.{
  ℕ, zero, suc, ◌+◌, ◌%◌, ◌≡◌, ◌⊎◌, inl, inr, refl, ap, ◌∙◌, sym, Bool, true, false, not, ◌&&◌,
  ◌||◌, List, [], ◌∷◌, ◌++◌, length, append_assoc, arith, Bool-cases, min, if◌then◌else◌,
}
use mathlib.Core.Path.{subst}
use graduation_prj.Pipe.Defs.{
  Pipe, pipesize, uint_mod, is_full, is_empty, put_byte, pipewrite, Wrote, wrote_all, wrote_failed,
  wrote_sleeps, copy_out, piperead, ReadOut, read_bytes, read_failed, read_sleeps,
}
use graduation_prj.Pipe.Fifo.{
  count, window, contents, IsValid, length-contents, count-full, put_byte-IsValid,
  contents-put_byte, window-suc,
}

-- The pipe `q` holds what `p` held and the bytes `cs`, less `rest`, which remain to be written.
pub record Took (p : Pipe) (cs : List ℕ) (q : Pipe) (rest : List ℕ) : Type 0 where
  pub valid : IsValid q
  pub order : contents q ++ rest ≡ contents p ++ cs
  pub reader : q.readopen ≡ p.readopen
  pub writer : q.writeopen ≡ p.writeopen

-- How `pipewrite` may end, from the pipe `p` with the bytes `cs` to write.
abbrev pub WriteOutcome : Bool → List ℕ → Pipe → Wrote → Type 0
WriteOutcome killed cs p (wrote_all q) = Took p cs q []
WriteOutcome killed cs p (wrote_failed rest q) =
    Took p cs q rest × (length (contents q) ≡ pipesize) × ((q.readopen ≡ false) ⊎ (killed ≡ true))
WriteOutcome killed cs p (wrote_sleeps rest q) =
    Took p cs q rest × (length (contents q) ≡ pipesize) × (q.readopen ≡ true) × (killed ≡ false)

Took-none : (p : Pipe) (cs : List ℕ) → IsValid p → Took p cs p cs
Took-none p cs v = record { valid = v; order = refl; reader = refl; writer = refl }

Took-byte :
    (p : Pipe) (c : ℕ) (cs : List ℕ) (q : Pipe) (rest : List ℕ)
    → IsValid p
    → is_full p ≡ false
    → Took (put_byte c p) cs q rest
    → Took p (c ∷ cs) q rest
Took-byte p c cs q rest v h t = record {
  valid = t.valid;
  order =
      t.order
      ∙ ap (λ xs. xs ++ cs) (contents-put_byte c p v h)
      ∙ append_assoc (contents p) (c ∷ []) cs;
  reader = unfold put_byte in t.reader;
  writer = unfold put_byte in t.writer;
}

WriteOutcome-byte :
    (killed : Bool) (p : Pipe) (c : ℕ) (cs : List ℕ) (w : Wrote)
    → IsValid p
    → is_full p ≡ false
    → WriteOutcome killed cs (put_byte c p) w
    → WriteOutcome killed (c ∷ cs) p w
WriteOutcome-byte killed p c cs (wrote_all q) v h t = Took-byte p c cs q [] v h t
WriteOutcome-byte killed p c cs (wrote_failed rest q) v h t =
    (Took-byte p c cs q rest v h t.0, t.1, t.2)
WriteOutcome-byte killed p c cs (wrote_sleeps rest q) v h t =
    (Took-byte p c cs q rest v h t.0, t.1, t.2, t.3)

pipewrite-room :
    (killed : Bool) (p : Pipe) (c : ℕ) (cs : List ℕ)
    → is_full p ≡ false
    → pipewrite killed (c ∷ cs) p ≡ pipewrite killed cs (put_byte c p)
unfolding pipewrite
pipewrite-room killed p c cs h = ground (arith, h)

pipewrite-failed :
    (killed : Bool) (p : Pipe) (c : ℕ) (cs : List ℕ)
    → is_full p ≡ true
    → (not p.readopen || killed) ≡ true
    → pipewrite killed (c ∷ cs) p ≡ wrote_failed (c ∷ cs) p
unfolding pipewrite
pipewrite-failed killed p c cs h k = ground (arith, h, k)

pipewrite-sleeps :
    (killed : Bool) (p : Pipe) (c : ℕ) (cs : List ℕ)
    → is_full p ≡ true
    → (not p.readopen || killed) ≡ false
    → pipewrite killed (c ∷ cs) p ≡ wrote_sleeps (c ∷ cs) p
unfolding pipewrite
pipewrite-sleeps killed p c cs h k = ground (arith, h, k)

either_true : (a b : Bool) → (not a || b) ≡ true → (a ≡ false) ⊎ (b ≡ true)
either_true true b h = inr h
either_true false b h = inl refl

both_false : (a b : Bool) → (not a || b) ≡ false → (a ≡ true) × (b ≡ false)
both_false true b h = (refl, h)
both_false false b h = ground arith

-- From a valid pipe, `pipewrite` gets to one of three ends, and in each the pipe stays valid and
-- holds its old bytes, then the given ones up to those left over, in order. It returns `n` with none
-- left over; it sleeps only if the pipe is full, the reading end is open and the process is not
-- killed; and it returns -1 only if the pipe is full and the reading end is closed or the process
-- killed.
pub pipewrite-WriteOutcome :
    (killed : Bool) (cs : List ℕ) (p : Pipe)
    → IsValid p
    → WriteOutcome killed cs p (pipewrite killed cs p)
pipewrite-WriteOutcome killed [] p v = unfold pipewrite in Took-none p [] v
pipewrite-WriteOutcome killed (c ∷ cs) p v = elim (Bool-cases (is_full p)) [
  | inl full ↦
      let len = length-contents p ∙ count-full p v full in
      elim (Bool-cases (not p.readopen || killed)) [
        | inl k ↦
            subst (WriteOutcome killed (c ∷ cs) p) (sym (pipewrite-failed killed p c cs full k))
              (Took-none p (c ∷ cs) v, len, either_true p.readopen killed k)
        | inr k ↦
            subst (WriteOutcome killed (c ∷ cs) p) (sym (pipewrite-sleeps killed p c cs full k)) (
              Took-none p (c ∷ cs) v,
              len,
              (both_false p.readopen killed k).0,
              (both_false p.readopen killed k).1,
            )
      ]
  | inr room ↦ subst (WriteOutcome killed (c ∷ cs) p) (sym (pipewrite-room killed p c cs room)) (
      WriteOutcome-byte killed p c cs (pipewrite killed cs (put_byte c p)) v room
        (pipewrite-WriteOutcome killed cs (put_byte c p) (put_byte-IsValid c p v room)))
]

-- Reading `n` bytes takes `bytes` off the front.
pub record Gave (p : Pipe) (n : ℕ) (bytes : List ℕ) (q : Pipe) : Type 0 where
  pub valid : IsValid q
  pub order : bytes ++ contents q ≡ contents p
  pub many : length bytes ≡ min n (length (contents p))
  pub reader : q.readopen ≡ p.readopen
  pub writer : q.writeopen ≡ p.writeopen

abbrev advance : Pipe → Pipe
advance p = record p { nread = (p.nread + 1) % uint_mod }

empty-count : (p : Pipe) → IsValid p → is_empty p ≡ true → count p ≡ 0
empty-count p v h = ground arith

advance-count : (p : Pipe) → IsValid p → is_empty p ≡ false → count p ≡ suc (count (advance p))
advance-count p v h = ground (arith, v.read_in, v.write_in, v.fits)

advance-IsValid : (p : Pipe) → IsValid p → is_empty p ≡ false → IsValid (advance p)
advance-IsValid p v h = record {
  read_in = omega arith;
  write_in = v.write_in;
  fits = omega (arith, advance-count p v h, v.fits);
}

copy_out-empty : (n : ℕ) (p : Pipe) → is_empty p ≡ true → copy_out n p ≡ ([], p)
unfolding copy_out
copy_out-empty zero p h = refl
copy_out-empty (suc n) p h = ground (arith, h)

copy_out-more :
    (n : ℕ) (p : Pipe)
    → is_empty p ≡ false
    → copy_out (suc n) p
      ≡ (p.bytes (p.nread % pipesize) ∷ (copy_out n (advance p)).0, (copy_out n (advance p)).1)
unfolding copy_out
copy_out-more n p h = ground (arith, h)

abbrev GaveOut : Pipe → ℕ → (List ℕ × Pipe) → Type 0
GaveOut p n r = Gave p n r.0 r.1

copy_out-Gave : (n : ℕ) (p : Pipe) → IsValid p → Gave p n (copy_out n p).0 (copy_out n p).1
copy_out-Gave zero p v =
    unfold copy_out in
    record { valid = v; order = refl; many = omega arith; reader = refl; writer = refl }
copy_out-Gave (suc n) p v = elim (Bool-cases (is_empty p)) [
  | inl h ↦ subst (GaveOut p (suc n)) (sym (copy_out-empty (suc n) p h)) (record {
    valid = v;
    order = refl;
    many = omega (arith, length-contents p, empty-count p v h);
    reader = refl;
    writer = refl;
  })
  | inr h ↦
      let rest = copy_out-Gave n (advance p) (advance-IsValid p v h) in
      let one = window-suc p.bytes p.nread (count p) (count (advance p)) (advance-count p v h) in
      subst (GaveOut p (suc n)) (sym (copy_out-more n p h)) (record {
        valid = rest.valid;
        order = ap (λ xs. p.bytes (p.nread % pipesize) ∷ xs) rest.order ∙ sym one;
        many =
            omega (
              arith,
              rest.many,
              length-contents p,
              length-contents (advance p),
              advance-count p v h,
            );
        reader = rest.reader;
        writer = rest.writer;
      })
]

-- How `piperead` may end.
abbrev pub ReadOutcome : Bool → ℕ → Pipe → ReadOut → Type 0
ReadOutcome killed n p (read_bytes bytes q) =
    Gave p n bytes q × ((contents p ≡ []) → p.writeopen ≡ false)
ReadOutcome killed n p read_failed = (contents p ≡ []) × (p.writeopen ≡ true) × (killed ≡ true)
ReadOutcome killed n p read_sleeps = (contents p ≡ []) × (p.writeopen ≡ true) × (killed ≡ false)

contents-empty : (p : Pipe) → IsValid p → is_empty p ≡ true → contents p ≡ []
contents-empty p v h = ap (window p.bytes p.nread) (empty-count p v h)

contents-not_empty : (p : Pipe) → IsValid p → contents p ≡ [] → is_empty p ≡ true
contents-not_empty p v e = elim (Bool-cases (is_empty p)) [
  | inl h ↦ h
  | inr h ↦ absurd (omega (arith, ap length e, length-contents p, advance-count p v h))
]

piperead-copies :
    (killed : Bool) (n : ℕ) (p : Pipe)
    → (is_empty p && p.writeopen) ≡ false
    → piperead killed n p ≡ read_bytes (copy_out n p).0 (copy_out n p).1
unfolding piperead
piperead-copies killed n p h = ground (arith, h)

piperead-waits :
    (killed : Bool) (n : ℕ) (p : Pipe)
    → (is_empty p && p.writeopen) ≡ true
    → piperead killed n p ≡ (if killed then read_failed else read_sleeps)
unfolding piperead
piperead-waits killed n p h = ground (arith, h)

waits_outcome :
    (killed : Bool) (n : ℕ) (p : Pipe)
    → contents p ≡ []
    → p.writeopen ≡ true
    → ReadOutcome killed n p (if killed then read_failed else read_sleeps)
waits_outcome true n p empty writing = (empty, writing, refl)
waits_outcome false n p empty writing = (empty, writing, refl)

-- From a valid pipe, `piperead` gets to one of three ends. It returns the oldest bytes, as many as
-- are asked for and there, and leaves the others in order; with none there, only if the writing end
-- is closed. It returns -1, or sleeps, only if the pipe is empty and the writing end is open: the
-- first if the process is killed, the second if not.
pub piperead-ReadOutcome :
    (killed : Bool) (n : ℕ) (p : Pipe) → IsValid p → ReadOutcome killed n p (piperead killed n p)
piperead-ReadOutcome killed n p v = elim (Bool-cases (is_empty p && p.writeopen)) [
  | inl h ↦
      let empty = contents-empty p v (ground (arith, h)) in
      let writing : p.writeopen ≡ true = ground (arith, h) in
      subst (ReadOutcome killed n p) (sym (piperead-waits killed n p h))
        (waits_outcome killed n p empty writing)
  | inr h ↦
      subst (ReadOutcome killed n p) (sym (piperead-copies killed n p h))
        (copy_out-Gave n p v, λ e. ground (arith, h, contents-not_empty p v e))
]
