-- ===== src/Slab/Table.antt =====
-- slab.c: the hash table from pages to their nodes, and free_slab_obj with the functions that it and dfree
-- call each other through.
use graduation_prj.Base.{
  ℕ, zero, suc, ◌+◌, ◌-◌, ◌*◌, ◌/◌, ◌%◌, Bool, List, [], ◌∷◌, Option, none, some, update, ltb, ◌==◌,
  if◌then◌else◌, Result, ok, stop, panic, spin, ◌>>=◌,
}
use graduation_prj.Slab.Defs.{
  Cache, Page, hash_size, max_free_page, pgsize, push_free_list, uint_mod,
}

-- `struct hash_node`: its own address, and the page of `cur_page` in place of the pointer.
pub record Node : Type 0 where
  pub self : ℕ
  pub slab_idx : ℕ
  pub page_start : ℕ

pub record Slabs : Type 0 where
  pub slab : ℕ → Cache
  pub hash_table : ℕ → List Node
  pub returned : List ℕ
  pub recorded : ℕ → ℕ

abbrev pub calc_hash_idx : ℕ → ℕ
calc_hash_idx page_addr = page_addr / pgsize % hash_size

abbrev pub page_of : ℕ → ℕ
page_of slab_obj = slab_obj / pgsize * pgsize

unfoldable pub find_node : ℕ → List Node → Option Node
find_node page_addr [] = none
find_node page_addr (n ∷ ns) = if n.page_start == page_addr then some n else find_node page_addr ns

unfoldable pub find_target_page : ℕ → Slabs → Option Node
find_target_page slab_obj s =
    let page_addr = page_of slab_obj in find_node page_addr (s.hash_table (calc_hash_idx page_addr))

abbrev pub check_slab_obj : ℕ → ℕ → Bool
check_slab_obj obj_addr obj_sz = obj_addr % pgsize % obj_sz == 0

-- The page of a cache that a node stands for.
unfoldable pub find_page : ℕ → List Page → Option Page
find_page start [] = none
find_page start (p ∷ ps) = if p.page_start == start then some p else find_page start ps

unfoldable pub replace_page : Page → List Page → List Page
replace_page p [] = []
replace_page p (q ∷ qs) =
    let rest = replace_page p qs in if q.page_start == p.page_start then p ∷ qs else q ∷ rest

unfoldable pub remove_page : ℕ → List Page → List Page
remove_page start [] = []
remove_page start (q ∷ qs) =
    let rest = remove_page start qs in if q.page_start == start then qs else q ∷ rest

unfoldable pub remove_node : ℕ → List Node → List Node
remove_node self [] = []
remove_node self (n ∷ ns) =
    let rest = remove_node self ns in if n.self == self then ns else n ∷ rest

-- The unlinking of `return_hash_node` and of `return_slab_page`.
abbrev pub drop_node : ℕ → Node → Slabs → Slabs
drop_node hash_idx n s = record s {
  hash_table = update s.hash_table hash_idx (remove_node n.self (s.hash_table hash_idx));
}

abbrev pub drop_page : ℕ → Page → Slabs → Slabs
drop_page idx p s = record s {
  slab =
      update s.slab idx
        (record (s.slab idx) { pages = remove_page p.page_start (s.slab idx).pages });
}

abbrev pub set_page : ℕ → Page → Slabs → Slabs
set_page idx p s = record s {
  slab = update s.slab idx (record (s.slab idx) { pages = replace_page p (s.slab idx).pages });
}

abbrev pub add_free_page : ℕ → Slabs → Slabs
add_free_page idx s = record s {
  slab =
      update s.slab idx
        (record (s.slab idx) { free_page_num = ((s.slab idx).free_page_num + 1) % uint_mod });
}

abbrev pub sub_free_page : ℕ → Slabs → Slabs
sub_free_page idx s = record s {
  slab = update s.slab idx (record (s.slab idx) {
    free_page_num = ((s.slab idx).free_page_num + uint_mod - 1) % uint_mod;
  });
}

pub data FreeStatus : Type 0 where
  not_found : FreeStatus
  invalid : FreeStatus
  success : FreeStatus

-- The rest of `dfree` in buddy.c after its call of `free_slab_obj`: what is not a slab object goes back to
-- the buddy allocator, which panics when removeSize finds no size for the address.
abbrev pub buddy_free : ℕ → FreeStatus × Slabs → Result Slabs
buddy_free address (success, s) = ok s
buddy_free address (invalid, s) = stop panic
buddy_free address (not_found, s) =
    if s.recorded address == 0
    then stop panic
    else ok (record s { returned = address ∷ s.returned; recorded = update s.recorded address 0 })

-- The functions below and `free_slab_obj` call each other: `free` is the latter.
module _ (free : ℕ → Slabs → Result (FreeStatus × Slabs)) where
  unfoldable pub dfree : ℕ → Slabs → Result Slabs
  dfree address s = free address s >>= buddy_free address

  unfoldable pub free_slab_page : Page → Slabs → Result Slabs
  free_slab_page p s = dfree p.page_start s >>= λ s₁. free p.self s₁ >>= λ (_, s₂). ok s₂

  unfoldable pub return_hash_node : ℕ → Node → Slabs → Result Slabs
  return_hash_node hash_idx n s = free n.self (drop_node hash_idx n s) >>= λ (_, s₁). ok s₁

  -- The memory of a static page is cleared, which the list of pages does not see.
  unfoldable pub return_slab_page : ℕ → Page → Slabs → Result Slabs
  return_slab_page idx p s =
      let s₁ = drop_page idx p s in
      (if p.self == (s.slab idx).static_page then ok s₁ else free_slab_page p s₁) >>= λ s₂.
      ok (sub_free_page idx s₂)

  abbrev pub release_page : ℕ → Node → Page → Slabs → Result (FreeStatus × Slabs)
  release_page slab_obj n p s =
      (return_hash_node (calc_hash_idx (page_of slab_obj)) n s >>= return_slab_page n.slab_idx p)
      >>= λ s₁. ok (success, s₁)

  -- `free_slab_obj` after `push_free_list`, with what that returns.
  abbrev pub after_push : ℕ → Node → Slabs → Option Page → Result (FreeStatus × Slabs)
  after_push slab_obj n s none = ok (invalid, s)
  after_push slab_obj n s (some p) =
      let s₁ = set_page n.slab_idx p s in
      let s₂ = add_free_page n.slab_idx s₁ in
      let released = release_page slab_obj n p s₂ in
      if p.in_use_num == 0
      then (if ltb max_free_page (s₂.slab n.slab_idx).free_page_num
          then released
          else ok (success, s₂))
      else ok (success, s₁)

  abbrev pub free_in_page : ℕ → Node → Slabs → Option Page → Result (FreeStatus × Slabs)
  free_in_page slab_obj n s none = ok (invalid, s)
  free_in_page slab_obj n s (some p) =
      if check_slab_obj slab_obj (s.slab n.slab_idx).obj_sz
      then after_push slab_obj n s (push_free_list slab_obj p)
      else ok (invalid, s)

  abbrev pub free_in_node : ℕ → Slabs → Option Node → Result (FreeStatus × Slabs)
  free_in_node slab_obj s none = ok (not_found, s)
  free_in_node slab_obj s (some n) =
      free_in_page slab_obj n s (find_page n.page_start (s.slab n.slab_idx).pages)

-- `free_slab_obj`, with fuel for the calls that it makes to free a node and a page's structure.
unfoldable pub free_slab_obj : ℕ → ℕ → Slabs → Result (FreeStatus × Slabs)
free_slab_obj zero slab_obj s = stop spin
free_slab_obj (suc fuel) slab_obj s =
    free_in_node (free_slab_obj fuel) slab_obj s (find_target_page slab_obj s)
