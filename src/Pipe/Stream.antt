-- ===== src/Pipe/Stream.antt =====
-- A writer and a reader on one pipe: every order of their calls, their sleeps and wakeups.
use graduation_prj.Base.{
  ℕ, ◌≡◌, refl, ap, ◌∙◌, sym, Bool, true, false, List, [], ◌++◌, length, append_assoc, append-nil,
  arith,
}
use mathlib.Core.Path.{subst}
use graduation_prj.Pipe.Defs.{
  Pipe, pipesize, pipewrite, wrote_all, wrote_sleeps, piperead, read_bytes, read_sleeps, pipeclose,
  new_pipe,
}
use graduation_prj.Pipe.Fifo.{contents, IsValid}
use graduation_prj.Pipe.Calls.{
  WriteOutcome, Took, pipewrite-WriteOutcome, piperead-ReadOutcome, ReadOutcome,
}

-- The pipe; the bytes that the writer's call has left; whether each process sleeps in its call; and,
-- from the start, the bytes passed to `pipewrite` and those that `piperead` returned.
pub record System : Type 0 where
  pub pipe : Pipe
  pub pending : List ℕ
  pub writer_sleeps : Bool
  pub reader_sleeps : Bool
  pub passed : List ℕ
  pub returned : List ℕ

-- A call of `pipewrite` runs with the writer awake, and it wakes the reader where it sleeps or
-- returns `n`; `piperead` wakes the writer where it returns; `pipeclose` wakes the other end. No call
-- is killed and no call fails.
pub data Step : System → System → Type 0 where
  asks :
      (s : System) (bytes : List ℕ)
      → s.writer_sleeps ≡ false
      → s.pending ≡ []
      → Step s (record s { pending = bytes; passed = s.passed ++ bytes })
  writes :
      (s : System) (q : Pipe)
      → s.writer_sleeps ≡ false
      → pipewrite false s.pending s.pipe ≡ wrote_all q
      → Step s (record s { pipe = q; pending = []; reader_sleeps = false })
  fills :
      (s : System) (rest : List ℕ) (q : Pipe)
      → s.writer_sleeps ≡ false
      → pipewrite false s.pending s.pipe ≡ wrote_sleeps rest q
      → Step s (record s { pipe = q; pending = rest; writer_sleeps = true; reader_sleeps = false })
  reads :
      (s : System) (n : ℕ) (bytes : List ℕ) (q : Pipe)
      → s.reader_sleeps ≡ false
      → piperead false n s.pipe ≡ read_bytes bytes q
      → Step s (record s { pipe = q; writer_sleeps = false; returned = s.returned ++ bytes })
  waits :
      (s : System) (n : ℕ)
      → s.reader_sleeps ≡ false
      → piperead false n s.pipe ≡ read_sleeps
      → Step s (record s { reader_sleeps = true })
  closes :
      (s : System)
      → s.writer_sleeps ≡ false
      → Step s (record s { pipe = (pipeclose true s.pipe).0; reader_sleeps = false })

pub data Reach : System → System → Type 0 where
  here : (s : System) → Reach s s
  later : {s t u : System} → Reach s t → Step t u → Reach s u

abbrev pub start : (ℕ → ℕ) → System
start bytes = record {
  pipe = new_pipe bytes;
  pending = [];
  writer_sleeps = false;
  reader_sleeps = false;
  passed = [];
  returned = [];
}

pub record IsOrdered (s : System) : Type 0 where
  pub valid : IsValid s.pipe
  pub stream : s.returned ++ (contents s.pipe ++ s.pending) ≡ s.passed
  pub asleep :
      s.writer_sleeps ≡ true → (length (contents s.pipe) ≡ pipesize) × (s.reader_sleeps ≡ false)

start-IsOrdered : (bytes : ℕ → ℕ) → IsOrdered (start bytes)
start-IsOrdered bytes = record {
  valid = record { read_in = omega arith; write_in = omega arith; fits = omega arith };
  stream = refl;
  asleep = λ e. ground arith;
}

Step-IsOrdered : {s t : System} → Step s t → IsOrdered s → IsOrdered t
Step-IsOrdered (asks s bytes awake idle) o = record {
  valid = o.valid;
  stream =
      sym (append_assoc s.returned (contents s.pipe) bytes)
      ∙ ap (λ xs. xs ++ bytes)
          (ap (λ xs. s.returned ++ xs)
              (sym (append-nil (contents s.pipe)) ∙ ap (λ xs. contents s.pipe ++ xs) (sym idle))
            ∙ o.stream);
  asleep = λ e. ground arith;
}
Step-IsOrdered (writes s q awake e) o =
    let t : Took s.pipe s.pending q [] =
      subst (WriteOutcome false s.pending s.pipe) e
        (pipewrite-WriteOutcome false s.pending s.pipe o.valid) in
    record {
      valid = t.valid;
      stream = ap (λ xs. s.returned ++ xs) t.order ∙ o.stream;
      asleep = λ e. ground arith;
    }
Step-IsOrdered (fills s rest q awake e) o =
    let t =
      subst (WriteOutcome false s.pending s.pipe) e
        (pipewrite-WriteOutcome false s.pending s.pipe o.valid) in
    record {
      valid = t.0.valid;
      stream = ap (λ xs. s.returned ++ xs) t.0.order ∙ o.stream;
      asleep = λ k. (t.1, refl);
    }
Step-IsOrdered (reads s n bytes q awake e) o =
    let t = subst (ReadOutcome false n s.pipe) e (piperead-ReadOutcome false n s.pipe o.valid) in
    record {
      valid = t.0.valid;
      stream =
          append_assoc s.returned bytes (contents q ++ s.pending)
          ∙ ap (λ xs. s.returned ++ xs)
              (sym (append_assoc bytes (contents q) s.pending)
                ∙ ap (λ xs. xs ++ s.pending) t.0.order)
          ∙ o.stream;
      asleep = λ e. ground arith;
    }
Step-IsOrdered (waits s n awake e) o =
    let t = subst (ReadOutcome false n s.pipe) e (piperead-ReadOutcome false n s.pipe o.valid) in
    record {
      valid = o.valid;
      stream = o.stream;
      asleep = λ k. absurd (omega (arith, ap length t.0, (o.asleep k).0));
    }
Step-IsOrdered (closes s awake) o = record {
  valid =
      unfold pipeclose in
      record { read_in = o.valid.read_in; write_in = o.valid.write_in; fits = o.valid.fits };
  stream = unfold pipeclose in o.stream;
  asleep = λ e. ground arith;
}

Reach-IsOrdered : (bytes : ℕ → ℕ) {s : System} → Reach (start bytes) s → IsOrdered s
Reach-IsOrdered bytes (here _) = start-IsOrdered bytes
Reach-IsOrdered bytes (later r step) = Step-IsOrdered step (Reach-IsOrdered bytes r)

-- In every state that steps of one writer and one reader lead to, on a new pipe: the bytes returned
-- by `piperead`, then those in the pipe, then those the writer has left to write, are the bytes
-- passed to `pipewrite`; and the two processes do not both sleep.
pub Reach-stream :
    (bytes : ℕ → ℕ) {s : System}
    → Reach (start bytes) s
    → (s.returned ++ (contents s.pipe ++ s.pending) ≡ s.passed)
      × (s.writer_sleeps ≡ true → s.reader_sleeps ≡ false)
Reach-stream bytes r = let o = Reach-IsOrdered bytes r in (o.stream, λ k. (o.asleep k).1)
