-- ===== src/Pipe/Tests.antt =====
-- A pipe whose counters are about to wrap: witnesses of the theorems and runs of the code.
use graduation_prj.Base.{◌≡◌, refl, true, false, [], ◌∷◌, ◌++◌, arith, ℕ_discrete}
use graduation_prj.Pipe.Defs.{Pipe, new_pipe, pipewrite, piperead, put_byte}
use graduation_prj.Pipe.Fifo.{IsValid, contents}
use graduation_prj.Pipe.Calls.{
  WriteOutcome, ReadOutcome, pipewrite-WriteOutcome, piperead-ReadOutcome,
}
use graduation_prj.Pipe.Stream.{System, Reach, here, later, start, asks, writes, Reach-stream}

-- One byte is in it, and both counters wrap during the next call.
abbrev wrapping : Pipe
wrapping = record {
  bytes = λ i. i;
  nread = 4294967294;
  nwrite = 4294967295;
  readopen = true;
  writeopen = true;
}

wrapping-IsValid : IsValid wrapping
wrapping-IsValid = record { read_in = omega arith; write_in = omega arith; fits = omega arith }

pipewrite-WriteOutcome_example :
    WriteOutcome false (7 ∷ 8 ∷ []) wrapping (pipewrite false (7 ∷ 8 ∷ []) wrapping)
pipewrite-WriteOutcome_example = pipewrite-WriteOutcome false (7 ∷ 8 ∷ []) wrapping wrapping-IsValid

piperead-ReadOutcome_example : ReadOutcome false 3 wrapping (piperead false 3 wrapping)
piperead-ReadOutcome_example = piperead-ReadOutcome false 3 wrapping wrapping-IsValid

abbrev asked : System
asked = record {
  pipe = new_pipe (λ _. 0);
  pending = 5 ∷ 6 ∷ [];
  writer_sleeps = false;
  reader_sleeps = false;
  passed = 5 ∷ 6 ∷ [];
  returned = [];
}

abbrev written : System
written = record asked { pipe = put_byte 6 (put_byte 5 asked.pipe); pending = [] }

run : Reach (start (λ _. 0)) written
unfolding pipewrite put_byte
run =
    later (later (here _) (asks (start (λ _. 0)) (5 ∷ 6 ∷ []) refl refl))
      (writes asked written.pipe refl refl)

Reach-stream_example :
    (written.returned ++ (contents written.pipe ++ written.pending) ≡ written.passed)
    × (written.writer_sleeps ≡ true → written.reader_sleeps ≡ false)
Reach-stream_example = Reach-stream (λ _. 0) run

written_bytes : contents written.pipe ≡ 5 ∷ 6 ∷ []
unfolding put_byte ℕ_discrete
written_bytes = refl
