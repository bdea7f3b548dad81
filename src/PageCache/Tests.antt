-- ===== src/PageCache/Tests.antt =====
-- A page cache with the hand on its last page: witnesses of the theorems and runs of the code.
use graduation_prj.Base.{ℕ, ◌+◌, ◌≡◌, refl, some, update, ℕ_discrete}
use graduation_prj.PageCache.Defs.{
  cachesize, max_time, CachePage, lru_victim, fifo_victim, least_from, clear_victim_cache,
}
use graduation_prj.PageCache.Victims.{FirstLeast, victims-FirstLeast}

-- The pages 0 and 11 are marked.
abbrev ref : ℕ → ℕ
ref = update (update (λ _. 0) 0 1) 11 1

abbrev cache : ℕ → CachePage
cache i = record { reference_time = 100 + i; idx = 50; ref = 0 }

victims-FirstLeast_example :
    FirstLeast cachesize (λ i. (cache i).reference_time) max_time (lru_victim cache)
    × FirstLeast cachesize (λ i. (cache i).idx) max_time (fifo_victim cache)
victims-FirstLeast_example = victims-FirstLeast cache

-- A page that has been cleared is not chosen again.
lru_test : lru_victim (clear_victim_cache 0 cache) ≡ some 1
unfolding lru_victim least_from clear_victim_cache ℕ_discrete
lru_test = refl
