-- ===== src/Pipe/Defs.antt =====
-- pipe.c: pipeclose, pipewrite and piperead, up to the points where they sleep. The lock is held from
-- the start of a call to its end or its sleep, so such a stretch is one step.
use graduation_prj.Base.{
  ℕ, zero, suc, ◌+◌, ◌%◌, ◌^◌, Bool, true, false, not, ◌&&◌, ◌||◌, List, [], ◌∷◌, update, ◌==◌,
  if◌then◌else◌,
}

abbrev pub pipesize : ℕ
pipesize = 512

-- The counters are of type `uint`.
abbrev pub uint_mod : ℕ
uint_mod = 2 ^ 32

-- `struct pipe`, without its lock.
pub record Pipe : Type 0 where
  pub bytes : ℕ → ℕ
  pub nread : ℕ
  pub nwrite : ℕ
  pub readopen : Bool
  pub writeopen : Bool

-- The fields that `pipealloc` sets; what the page held before is arbitrary.
abbrev pub new_pipe : (ℕ → ℕ) → Pipe
new_pipe bytes = record { bytes = bytes; nread = 0; nwrite = 0; readopen = true; writeopen = true }

abbrev pub is_full : Pipe → Bool
is_full p = p.nwrite == (p.nread + pipesize) % uint_mod

abbrev pub is_empty : Pipe → Bool
is_empty p = p.nread == p.nwrite

-- `p->data[p->nwrite++ % PIPESIZE] = c`
unfoldable pub put_byte : ℕ → Pipe → Pipe
put_byte c p = record p {
  bytes = update p.bytes (p.nwrite % pipesize) c;
  nwrite = (p.nwrite + 1) % uint_mod;
}

-- Where `pipewrite` gets to: it returns `n`; it returns -1; or it sleeps. The list holds the bytes
-- that it has not written.
pub data Wrote : Type 0 where
  wrote_all : Pipe → Wrote
  wrote_failed : List ℕ → Pipe → Wrote
  wrote_sleeps : List ℕ → Pipe → Wrote

-- `pipewrite` from the byte `addr[i]` on.
unfoldable pub pipewrite : Bool → List ℕ → Pipe → Wrote
pipewrite killed [] p = wrote_all p
pipewrite killed (c ∷ cs) p =
    let rest = pipewrite killed cs (put_byte c p) in
    if is_full p
    then (if not p.readopen || killed then wrote_failed (c ∷ cs) p else wrote_sleeps (c ∷ cs) p)
    else rest

-- The copying loop of `piperead`, for at most `n` bytes.
unfoldable pub copy_out : ℕ → Pipe → List ℕ × Pipe
copy_out zero p = ([], p)
copy_out (suc n) p =
    let (cs, p') = copy_out n (record p { nread = (p.nread + 1) % uint_mod }) in
    if is_empty p then ([], p) else (p.bytes (p.nread % pipesize) ∷ cs, p')

-- Where `piperead` gets to: it returns the bytes copied; it returns -1; or it sleeps.
pub data ReadOut : Type 0 where
  read_bytes : List ℕ → Pipe → ReadOut
  read_failed : ReadOut
  read_sleeps : ReadOut

unfoldable pub piperead : Bool → ℕ → Pipe → ReadOut
piperead killed n p =
    if is_empty p && p.writeopen
    then (if killed then read_failed else read_sleeps)
    else (let (cs, p') = copy_out n p in read_bytes cs p')

-- `pipeclose`: the pipe, and whether its page is freed.
unfoldable pub pipeclose : Bool → Pipe → Pipe × Bool
pipeclose writable p =
    let p' = if writable then record p { writeopen = false } else record p { readopen = false } in
    (p', not p'.readopen && not p'.writeopen)
