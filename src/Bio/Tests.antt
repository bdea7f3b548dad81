-- ===== src/Bio/Tests.antt =====
-- A cache of three buffers: witnesses of the theorems and runs of the code.
use graduation_prj.Base.{ℕ, ◌<◌, ◌≡◌, ◌⊎◌, refl, false, List, [], ◌∷◌, arith}
use graduation_prj.Bio.Defs.{Buf, bget, binit, brelse, find_cached, recycle}
use graduation_prj.Bio.Keys.{IsDistinct, binit-IsDistinct}
use graduation_prj.Bio.Get.{GetOutcome, bget-GetOutcome}
use graduation_prj.Bio.Release.{Reach, here, later, gets, releases, Reach-IsDistinct, brelse_lem}

bget-GetOutcome_example : GetOutcome 1 40 (binit 3) (bget 1 40 (binit 3))
bget-GetOutcome_example =
    bget-GetOutcome 1 40 (binit 3) (λ e. omega (arith, e)) (binit-IsDistinct 3)

abbrev buf : ℕ → ℕ → ℕ → ℕ → Buf
buf id dev blockno refcnt = record {
  id = id;
  dev = dev;
  blockno = blockno;
  refcnt = refcnt;
  valid = false;
  dirty = false;
}

abbrev got : List Buf
got = buf 2 0 0 0 ∷ buf 1 0 0 0 ∷ buf 0 1 40 1 ∷ []

run : Reach (binit 3) (brelse 0 got)
unfolding bget binit find_cached recycle
run =
    later
      (later (here (binit 3)) (gets (binit 3) got 1 40 (buf 0 1 40 1) (λ e. omega (arith, e)) refl))
      (releases got 0)

Reach-IsDistinct_example : IsDistinct (brelse 0 got)
Reach-IsDistinct_example = Reach-IsDistinct 3 (brelse 0 got) run

brelse_lem_example :
    (((buf 0 1 40 1).refcnt ≡ 1) × (brelse 0 got ≡ buf 0 1 40 0 ∷ (buf 2 0 0 0 ∷ buf 1 0 0 0 ∷ [])))
    ⊎ ((1 < (buf 0 1 40 1).refcnt) × (brelse 0 got ≡ buf 2 0 0 0 ∷ buf 1 0 0 0 ∷ buf 0 1 40 0 ∷ []))
brelse_lem_example =
    brelse_lem 0 (buf 2 0 0 0 ∷ buf 1 0 0 0 ∷ []) (buf 0 1 40 1) [] refl
      (λ e. omega (arith, e), (λ e. omega (arith, e), tt)) (omega arith) (omega arith)
