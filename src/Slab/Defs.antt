-- ===== src/Slab/Defs.antt =====
-- slab.c and slab.h: pages of equal objects and the list of pages of each cache. A linked list is a List,
-- its first element the head.
use graduation_prj.Base.{
  ℕ, zero, suc, ◌+◌, ◌-◌, ◌*◌, ◌/◌, ◌%◌, ◌^◌, Bool, true, false, not, ◌&&◌, List, [], ◌∷◌, ◌++◌,
  Option, none, some, ltb, ◌==◌, if◌then◌else◌, Result, ok, stop, fault, spin, ◌>>=◌,
}

abbrev pub pgsize : ℕ
pgsize = 4096

abbrev pub uint_mod : ℕ
uint_mod = 2 ^ 32

abbrev pub hash_size : ℕ
hash_size = 10

abbrev pub max_free_page : ℕ
max_free_page = 2

-- `struct page`: its own address, the page, and the list of free objects.
pub record Page : Type 0 where
  pub self : ℕ
  pub page_start : ℕ
  pub in_use_num : ℕ
  pub free_list : List ℕ

-- The links that `make_slab_obj` writes from `cur_obj` on, with `count` objects after it. The pointer
-- steps by words of 4 bytes.
unfoldable pub link_objects : ℕ → ℕ → ℕ → List ℕ
link_objects zero cur_obj step = cur_obj ∷ []
link_objects (suc count) cur_obj step = cur_obj ∷ link_objects count (cur_obj + step) step

unfoldable pub make_slab_obj : ℕ → Page → Page
make_slab_obj obj_sz p = record p {
  in_use_num = 0;
  free_list = link_objects (pgsize / obj_sz - 1) p.page_start (obj_sz / 4 * 4);
}

abbrev pub has : ℕ → List ℕ → Bool
has x [] = false
has x (y ∷ ys) = if y == x then true else has x ys

-- `none` is the result INVALID.
unfoldable pub push_free_list : ℕ → Page → Option Page
push_free_list slab_obj p =
    if has slab_obj p.free_list
    then none
    else some (record p {
      free_list = p.free_list ++ (slab_obj ∷ []);
      in_use_num = (p.in_use_num + uint_mod - 1) % uint_mod;
    })

-- The page half of `pop_free_list`: an empty list is a null pointer that the C would follow.
abbrev pub pop_object : Page → List ℕ → Result (ℕ × Page)
pop_object p [] = stop fault
pop_object p (x ∷ xs) =
    ok (x, record p { free_list = xs; in_use_num = (p.in_use_num + 1) % uint_mod })

-- `struct slab_cache`: the pages from `cur_slab_page` to `page_tail`.
pub record Cache : Type 0 where
  pub obj_sz : ℕ
  pub free_page_num : ℕ
  pub static_page : ℕ
  pub pages : List Page

unfoldable pub pop_free_list : Cache → Result (ℕ × Cache)
pop_free_list c = elim c.pages [
  | [] ↦ stop fault
  | p ∷ ps ↦ pop_object p p.free_list >>= λ (x, p'). ok (
    x,
    record c {
      pages = p' ∷ ps;
      free_page_num =
          if p.in_use_num == 0
          then (c.free_page_num + uint_mod - 1) % uint_mod
          else c.free_page_num;
    },
  )
]

-- `insert_slab_page` with HEAD and with TAIL.
abbrev pub insert_head : Page → Cache → Cache
insert_head p c = record c { pages = p ∷ c.pages }

abbrev pub insert_tail : Page → Cache → Cache
insert_tail p c = record c { pages = c.pages ++ (p ∷ []) }

-- `load_next_slab_page`: the current page goes behind the others.
abbrev pub load_next_slab_page : Page → List Page → Cache → Cache
load_next_slab_page p ps c = insert_tail p (record c { pages = ps })

-- How the labels `try_alloc` and `no_free_obj` of `slab_system` go on; `null_page` follows a null pointer
-- and `more_rounds` is not in the C.
pub data Search : Type 0 where
  has_object : Cache → Search
  needs_page : Cache → Search
  null_page : Search
  more_rounds : Search

abbrev pub is_empty {ℓ} : {A : Type ℓ} → List A → Bool
is_empty [] = true
is_empty (_ ∷ _) = false

-- The jumps between them, with the rounds left; `prev_tail` is the last page at the start.
unfoldable pub try_alloc : ℕ → ℕ → List Page → Cache → Search
try_alloc fuel prev_tail [] c = null_page
try_alloc zero prev_tail (p ∷ ps) c =
    if is_empty p.free_list
    then (if not (is_empty ps) && not (p.self == prev_tail)
        then more_rounds
        else needs_page (record c { pages = p ∷ ps }))
    else has_object (record c { pages = p ∷ ps })
try_alloc (suc fuel) prev_tail (p ∷ ps) c =
    let next = try_alloc fuel prev_tail (ps ++ (p ∷ [])) c in
    if is_empty p.free_list
    then (if not (is_empty ps) && not (p.self == prev_tail)
        then next
        else needs_page (record c { pages = p ∷ ps }))
    else has_object (record c { pages = p ∷ ps })

abbrev pub length_pages : List Page → ℕ
length_pages [] = 0
length_pages (_ ∷ ps) = suc (length_pages ps)

-- The address in `page_tail`.
abbrev pub page_tail : List Page → ℕ
page_tail [] = 0
page_tail (p ∷ []) = p.self
page_tail (p ∷ q ∷ qs) = page_tail (q ∷ qs)

-- One round for each page is enough, as a round passes a page.
unfoldable pub find_object : Cache → Search
find_object c = try_alloc (length_pages c.pages) (page_tail c.pages) c.pages c

-- `calc_slab_idx`, with rounds: 29 doublings of 4 reach 2 ^ 31, and the next are 0.
unfoldable pub calc_slab_idx_loop : ℕ → ℕ → ℕ → ℕ → Result ℕ
calc_slab_idx_loop zero n power2 cnt = if ltb power2 n then stop spin else ok cnt
calc_slab_idx_loop (suc rounds) n power2 cnt =
    let next = calc_slab_idx_loop rounds n (power2 * 2 % uint_mod) (cnt + 1) in
    if ltb power2 n then next else ok cnt

unfoldable pub calc_slab_idx : ℕ → Result ℕ
calc_slab_idx n = if ltb n 4 then ok 0 else calc_slab_idx_loop 29 n 4 0
