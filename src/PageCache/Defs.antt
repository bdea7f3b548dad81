-- ===== src/PageCache/Defs.antt =====
-- file.c and pagecache.h: the policies of the page cache, up to the victim that each chooses.
use graduation_prj.Base.{
  ℕ, zero, suc, ◌+◌, ◌%◌, Option, none, some, update, ltb, ◌==◌, if◌then◌else◌,
}

abbrev pub cachesize : ℕ
cachesize = 12

-- The initial `victim_time`, and the mark of a page that is not in use.
abbrev pub max_time : ℕ
max_time = 2147483647

-- `struct cache`, the fields that the policies read.
pub record CachePage : Type 0 where
  pub reference_time : ℕ
  pub idx : ℕ
  pub ref : ℕ

-- The search of `lru_policy` and of `FIFO_policy` over one of the fields, with the pages left: the
-- index -1 is `none`.
unfoldable pub least_from : ℕ → ℕ → (ℕ → ℕ) → ℕ → Option ℕ → Option ℕ
least_from zero i key victim_time victim_idx = victim_idx
least_from (suc rounds) i key victim_time victim_idx =
    let lower = ltb (key i) victim_time in
    least_from rounds (i + 1) key (if lower then key i else victim_time)
      (if lower then some i else victim_idx)

unfoldable pub lru_victim : (ℕ → CachePage) → Option ℕ
lru_victim cache = least_from cachesize 0 (λ i. (cache i).reference_time) max_time none

unfoldable pub fifo_victim : (ℕ → CachePage) → Option ℕ
fifo_victim cache = least_from cachesize 0 (λ i. (cache i).idx) max_time none

-- The endless loop of `clock_policy`, with fuel: the victim, `axis` and the marks after it.
unfoldable pub clock_from : ℕ → ℕ → (ℕ → ℕ) → Option (ℕ × ℕ × (ℕ → ℕ))
clock_from zero axis ref = none
clock_from (suc fuel) axis ref =
    let rest = clock_from fuel ((axis + 1) % cachesize) (update ref axis 0) in
    if ref axis == 1 then rest else some (axis, (axis + 1) % cachesize, ref)

-- The fuel is one more than the pages: each round but the last takes a mark away.
unfoldable pub clock_victim : ℕ → (ℕ → ℕ) → Option (ℕ × ℕ × (ℕ → ℕ))
clock_victim axis ref = clock_from (cachesize + 1) axis ref

-- `clear_victim_cache`, and each round of `init_cache`, on these fields.
abbrev pub cleared_page : CachePage
cleared_page = record { reference_time = max_time; idx = max_time; ref = 0 }

unfoldable pub clear_victim_cache : ℕ → (ℕ → CachePage) → ℕ → CachePage
clear_victim_cache victim cache = update cache victim cleared_page
