-- ===== src/FileTable/Tests.antt =====
-- file.c: a table with one open file, which stands for an inode.
use graduation_prj.Base.{
  ℕ, ◌+◌, ◌<◌, ◌≡◌, refl, true, false, some, update, Succeeds, ℕ_discrete, arith,
}
use graduation_prj.FileTable.Defs.{
  FileTable, OpenFile, fd_none, fd_inode, filealloc, find_unused_file, with_ref, filedup, fileclose,
}
use graduation_prj.FileTable.References.{
  Reach, start, alloc, assign, Counted, AllocOutcome, Closed, Reach-Closed,
}

abbrev unused : FileTable
unused f = record { type = fd_none; ref = 0; writable = false; pipe = 0; ip = 0 }

abbrev opened : OpenFile
opened = record { type = fd_inode; ref = 1; writable = true; pipe = 0; ip = 9 }

abbrev table : FileTable
table = update (with_ref 0 1 unused) 0 opened

abbrev held : ℕ → ℕ
held = update (λ _. 0) 0 1

filealloc_first : filealloc unused ≡ some (0, with_ref 0 1 unused)
unfolding filealloc find_unused_file
filealloc_first = refl

table-Reach : Reach table held
unfolding ℕ_discrete
table-Reach =
    assign (with_ref 0 1 unused) held 0 opened
      (alloc unused (with_ref 0 1 unused) (λ _. 0) 0 (start unused (λ f. refl)) filealloc_first)
      (omega arith) refl

Reach-Closed_example :
    AllocOutcome held (filealloc table)
    × ((f : ℕ)
        → 0 < held f
        → Succeeds (λ t'. Counted t' (update held f (held f + 1))) (filedup f table)
          × Succeeds (λ (r, t'). Closed table held f r t') (fileclose f table))
Reach-Closed_example = Reach-Closed table held table-Reach
