-- ===== src/Inodes/Cache.antt =====
-- fs.c: an inode has one entry in the cache, which every iget of it gives.
use graduation_prj.Base.{ℕ, ◌+◌, ◌<◌, ◌≡◌, ◌≢◌, true, false, Option, none, some, Result, ok, stop}
use graduation_prj.Inodes.Defs.{Entry, Icache, Found, cached, missing, is_cached}

-- Two entries in use that are of the same inode.
abbrev pub SameInode : Entry → Entry → Type 0
SameInode a b = (0 < a.ref) × (0 < b.ref) × (a.dev ≡ b.dev) × (a.node.inum ≡ b.node.inum)

abbrev pub Unique : Icache → Type 0
Unique c = (i j : ℕ) → i < 50 → j < 50 → SameInode (c i) (c j) → i ≡ j

-- The loop has passed the entries below `i`.
abbrev Passed : ℕ → ℕ → ℕ → Icache → Type 0
Passed i dev inum c = (j : ℕ) → j < i → is_cached dev inum (c j) ≡ false

abbrev Remembered : ℕ → Icache → Option ℕ → Type 0
Remembered i c none = (j : ℕ) → j < i → (c j).ref ≢ 0
Remembered i c (some e) = (e < i) × ((c e).ref ≡ 0)

abbrev FoundOutcome : ℕ → ℕ → ℕ → Icache → Found → Type 0
FoundOutcome n dev inum c (cached i) = (i < n) × (is_cached dev inum (c i) ≡ true)
FoundOutcome n dev inum c (missing empty) = Passed n dev inum c × Remembered n c empty

-- What a reference to the inode changes.
pub record Held (dev inum : ℕ) (c : Icache) (k : ℕ) (after : Icache) : Type 0 where
  pub inside : k < 50
  pub here : is_cached dev inum (after k) ≡ true
  pub count : (after k).ref ≡ (c k).ref + 1
  pub others : (j : ℕ) → j ≢ k → after j ≡ c j
  pub kept : 0 < (c k).ref → after k ≡ record (c k) { ref = (c k).ref + 1 }
  pub fresh :
      (c k).ref ≡ 0
      → ((after k).valid ≡ false)
        × ((after k).ref ≡ 1)
        × ((after k).dev ≡ dev)
        × ((after k).node.inum ≡ inum)
  pub unique : Unique after

abbrev pub IgetOutcome : ℕ → ℕ → Icache → Result (ℕ × Icache) → Type 0
IgetOutcome dev inum c (ok (k, after)) = Held dev inum c k after
IgetOutcome dev inum c (stop why) =
    (j : ℕ) → j < 50 → (0 < (c j).ref) × (is_cached dev inum (c j) ≡ false)
