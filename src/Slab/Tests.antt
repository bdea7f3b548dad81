-- ===== src/Slab/Tests.antt =====
-- slab.c on a page of four objects, a cache of two pages and a hash table of one node.
use graduation_prj.Base.{
  ℕ, ◌<◌, ◌≡◌, refl, List, [], ◌∷◌, Result, ok, update, sum_below, ℕ_discrete, arith,
}
use graduation_prj.Slab.Defs.{
  Page, Cache, has_object, make_slab_obj, link_objects, pop_object, push_free_list, find_object,
  try_alloc, calc_slab_idx, calc_slab_idx_loop,
}
use graduation_prj.Slab.Table.{
  FreeStatus, remove_node, remove_page, return_hash_node, return_slab_page, free_slab_page, dfree,
  Node, Slabs, free_slab_obj, success, find_target_page, find_node, find_page, replace_page,
}
use graduation_prj.Slab.Objects.{IsPage, HandedOut}
use graduation_prj.Slab.Pages.{
  PopOutcome, PushOutcome, pop_object-PopOutcome, push_free_list-PushOutcome, make_slab_obj-IsPage,
}
use graduation_prj.Slab.Search.{SearchOutcome, Fits, find_object-SearchOutcome, calc_slab_idx-Fits}
use graduation_prj.Slab.Release.{nodes, Ends, free_slab_obj-Ends}

abbrev blank : Page
blank = record { self = 100; page_start = 8192; in_use_num = 0; free_list = [] }

abbrev fresh_page : Page
fresh_page = make_slab_obj 1024 blank

abbrev used_page : Page
used_page = record {
  self = 100;
  page_start = 8192;
  in_use_num = 1;
  free_list = 9216 ∷ 10240 ∷ 11264 ∷ [];
}

abbrev full_page : Page
full_page = record { self = 200; page_start = 16384; in_use_num = 4; free_list = [] }

make_slab_obj_links : fresh_page.free_list ≡ 8192 ∷ 9216 ∷ 10240 ∷ 11264 ∷ []
unfolding make_slab_obj link_objects
make_slab_obj_links = refl

make_slab_obj-IsPage_example : IsPage 1024 fresh_page × ((x : ℕ) → ¬ HandedOut 1024 fresh_page x)
make_slab_obj-IsPage_example = make_slab_obj-IsPage 1024 blank refl (omega arith) (omega arith)

fresh-IsPage : IsPage 1024 fresh_page
fresh-IsPage = (make_slab_obj-IsPage 1024 blank refl (omega arith) (omega arith)).0

pop_object-PopOutcome_example :
    PopOutcome 1024 fresh_page (pop_object fresh_page fresh_page.free_list)
pop_object-PopOutcome_example = pop_object-PopOutcome 1024 fresh_page (omega arith) fresh-IsPage

used-IsPage : IsPage 1024 used_page
unfolding make_slab_obj link_objects
used-IsPage = (pop_object-PopOutcome 1024 fresh_page (omega arith) fresh-IsPage).0

push_free_list-PushOutcome_example : PushOutcome 1024 8192 used_page (push_free_list 8192 used_page)
push_free_list-PushOutcome_example =
    push_free_list-PushOutcome 1024 8192 used_page (omega arith) (0, omega arith, refl) used-IsPage

abbrev cache : Cache
cache = record {
  obj_sz = 1024;
  free_page_num = 0;
  static_page = 200;
  pages = full_page ∷ used_page ∷ [];
}

find_object_found :
    find_object cache ≡ has_object (record cache { pages = used_page ∷ full_page ∷ [] })
unfolding find_object try_alloc
find_object_found = refl

find_object-SearchOutcome_example : SearchOutcome cache cache.pages (find_object cache)
find_object-SearchOutcome_example = find_object-SearchOutcome cache (λ e. omega (arith, e), refl)

calc_slab_idx_100 : calc_slab_idx 100 ≡ ok 5
unfolding calc_slab_idx calc_slab_idx_loop
calc_slab_idx_100 = refl

calc_slab_idx-Fits_example : Fits 100 (calc_slab_idx 100)
calc_slab_idx-Fits_example = calc_slab_idx-Fits 100 (omega arith)

abbrev node : Node
node = record { self = 300; slab_idx = 8; page_start = 8192 }

-- The page of the cache is in the table, and a third page becomes free.
abbrev slabs : Slabs
slabs = record {
  slab = λ _. record cache { free_page_num = 2 };
  hash_table = update (λ _. []) 2 (node ∷ []);
  returned = [];
  recorded = update (λ _. 0) 8192 4096;
}

nodes_few : nodes slabs < 3
unfolding sum_below ℕ_discrete
nodes_few = omega arith

abbrev pages_returned : Result (FreeStatus × Slabs) → List ℕ
pages_returned (ok (success, s)) = s.returned
pages_returned _ = []

free_slab_obj_returns : pages_returned (free_slab_obj 3 8192 slabs) ≡ 8192 ∷ []
unfolding free_slab_obj find_target_page find_node find_page push_free_list replace_page remove_node
    remove_page return_hash_node return_slab_page free_slab_page dfree ℕ_discrete
free_slab_obj_returns = refl

free_slab_obj-Ends_example : Ends (nodes slabs) (free_slab_obj 3 8192 slabs)
free_slab_obj-Ends_example = free_slab_obj-Ends 3 8192 slabs nodes_few
