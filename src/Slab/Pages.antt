-- ===== src/Slab/Pages.antt =====
-- slab.c: a page of objects as a set, and what handing an object out and taking it back do to it.
use graduation_prj.Base.{
  ℕ, zero, suc, ◌+◌, ◌-◌, ◌*◌, ◌/◌, ◌%◌, ◌^◌, ◌≤◌, ◌<◌, ◌≡◌, ◌≢◌, ◌⊎◌, inl, inr, ◌↔◌, refl, sym, ap,
  ◌∙◌, true, false, List, [], ◌∷◌, ◌++◌, All, All-append, Option, none, some, arith, ℕ_discrete,
  Bool-cases, eq→==, if◌then◌else◌, Result, ok, stop, total, total-less, total-zero,
}
use mathlib.Core.Path.{subst}
use graduation_prj.Slab.Defs.{Page, link_objects, make_slab_obj, has, push_free_list, pop_object}
use graduation_prj.Slab.Objects.{
  IsObject, IsUnique, handed, IsPage, HandedOut, IsUnique-append, link_objects-All,
  link_objects-IsUnique, link_objects-has, has-head_other, has-last_other, has-last,
}
use native.Mathlib.Nat.{eq_of_mul-eq-mul_right, div-le_self}

total-le : (n : ℕ) (f : ℕ → ℕ) → ((i : ℕ) → f i ≤ 1) → total n f ≤ n
total-le zero f h = omega arith
total-le (suc n) f h = omega (arith, total-le n f h, h n)

handed-has :
    (obj_sz : ℕ) (p : Page) (k : ℕ)
    → has (p.page_start + k * obj_sz) p.free_list ≡ true
    → handed obj_sz p k ≡ 0
unfolding handed
handed-has obj_sz p k h = rw h refl

handed-lacks :
    (obj_sz : ℕ) (p : Page) (k : ℕ)
    → has (p.page_start + k * obj_sz) p.free_list ≡ false
    → handed obj_sz p k ≡ 1
unfolding handed
handed-lacks obj_sz p k h = rw h refl

handed-same :
    (obj_sz : ℕ) (p q : Page) (k : ℕ)
    → has (p.page_start + k * obj_sz) p.free_list ≡ has (q.page_start + k * obj_sz) q.free_list
    → handed obj_sz p k ≡ handed obj_sz q k
unfolding handed
handed-same obj_sz p q k h = ap (λ b. if b then 0 else 1) h

handed-le : (obj_sz : ℕ) (p : Page) (k : ℕ) → handed obj_sz p k ≤ 1
unfolding handed
handed-le obj_sz p k = ground arith

-- Objects with different numbers are different.
object_ne : (obj_sz start c k : ℕ) → 0 < obj_sz → c ≢ k → start + k * obj_sz ≢ start + c * obj_sz
object_ne obj_sz start c k pos ne e =
    let same : c * obj_sz ≡ k * obj_sz = grind (arith, e) in
    ne (eq_of_mul-eq-mul_right obj_sz pos c k same)

-- Two pages whose free lists differ in one object only.
total-differ :
    (obj_sz : ℕ) (p q : Page) (k : ℕ)
    → 0 < obj_sz
    → k < 4096 / obj_sz
    → q.page_start ≡ p.page_start
    → has (p.page_start + k * obj_sz) p.free_list ≡ true
    → has (p.page_start + k * obj_sz) q.free_list ≡ false
    → ((y : ℕ) → p.page_start + k * obj_sz ≢ y → has y p.free_list ≡ has y q.free_list)
    → total (4096 / obj_sz) (handed obj_sz q) ≡ suc (total (4096 / obj_sz) (handed obj_sz p))
total-differ obj_sz p q k pos lt start here gone others =
    let same : (y : ℕ)
        → p.page_start + k * obj_sz ≢ y
        → (z : ℕ) → z ≡ y
        → has z q.free_list ≡ has y p.free_list =
      λ y ne z e. ap (λ w. has w q.free_list) e ∙ sym (others y ne) in
    total-less (4096 / obj_sz) k (handed obj_sz q) (handed obj_sz p) lt
      (handed-lacks obj_sz q k
          (subst (λ a. has (a + k * obj_sz) q.free_list ≡ false) (sym start) gone)
        ∙ sym (ap suc (handed-has obj_sz p k here)))
      (λ c below ne. handed-same obj_sz q p c (
        same (p.page_start + c * obj_sz) (object_ne obj_sz p.page_start c k pos ne)
          (q.page_start + c * obj_sz) (ap (λ a. a + c * obj_sz) start)))

total-object :
    (obj_sz : ℕ) (p q : Page) (x : ℕ)
    → 0 < obj_sz
    → IsObject obj_sz p.page_start x
    → q.page_start ≡ p.page_start
    → has x p.free_list ≡ true
    → has x q.free_list ≡ false
    → ((y : ℕ) → x ≢ y → has y p.free_list ≡ has y q.free_list)
    → total (4096 / obj_sz) (handed obj_sz q) ≡ suc (total (4096 / obj_sz) (handed obj_sz p))
total-object obj_sz p q x pos (k, lt, e) start here gone others =
    total-differ obj_sz p q k pos lt start (ap (λ a. has a p.free_list) (sym e) ∙ here)
      (ap (λ a. has a q.free_list) (sym e) ∙ gone) (λ y ne. others y (λ same. ne (sym e ∙ same)))

total-handed : (obj_sz : ℕ) (p : Page) → total (4096 / obj_sz) (handed obj_sz p) ≤ 4096
total-handed obj_sz p = omega (
  arith,
  total-le (4096 / obj_sz) (handed obj_sz p) (handed-le obj_sz p),
  div-le_self 4096 obj_sz,
)

-- An object handed out is one that was not, and the others stay as they are; a page without a free
-- object has handed out all of them.
abbrev pub PopOutcome : ℕ → Page → Result (ℕ × Page) → Type 0
PopOutcome obj_sz p (stop _) = (y : ℕ) → IsObject obj_sz p.page_start y → HandedOut obj_sz p y
PopOutcome obj_sz p (ok (x, q)) =
    IsPage obj_sz q
    × (¬ HandedOut obj_sz p x)
    × ((y : ℕ) → HandedOut obj_sz q y ↔ ((y ≡ x) ⊎ HandedOut obj_sz p y))

-- The same page with other free objects.
abbrev pub with_free : Page → List ℕ → ℕ → Page
with_free p xs n = record p { free_list = xs; in_use_num = n }

taken_out :
    (obj_sz : ℕ) (p q : Page) (x : ℕ)
    → IsObject obj_sz p.page_start x
    → q.page_start ≡ p.page_start
    → has x q.free_list ≡ false
    → ((y : ℕ) → x ≢ y → has y p.free_list ≡ has y q.free_list)
    → has x p.free_list ≡ true
    → (y : ℕ) → HandedOut obj_sz q y ↔ ((y ≡ x) ⊎ HandedOut obj_sz p y)
taken_out obj_sz p q x o start gone others here y = (
  λ (oq, lacks). elim (ℕ_discrete x y) [
    | yes e ↦ inl (sym e)
    | no ne ↦ inr (subst (λ a. IsObject obj_sz a y) start oq, others y ne ∙ lacks)
  ],
  λ c. elim c [
    | inl e ↦ (
      subst (λ a. IsObject obj_sz q.page_start a) (sym e)
          (subst (λ a. IsObject obj_sz a x) (sym start) o),
      ap (λ a. has a q.free_list) e ∙ gone,
    )
    | inr (op, lacks) ↦ elim (ℕ_discrete x y) [
      | yes e ↦ absurd (ground (arith, here, lacks, ap (λ a. has a p.free_list) e))
      | no ne ↦ (subst (λ a. IsObject obj_sz a y) (sym start) op, sym (others y ne) ∙ lacks)
    ]
  ],
)

pop_list :
    (obj_sz : ℕ) (p : Page) (xs : List ℕ)
    → 0 < obj_sz
    → IsPage obj_sz p
    → p.free_list ≡ xs
    → PopOutcome obj_sz p (pop_object p xs)
pop_list obj_sz p [] pos page e = λ y o. (o, ap (has y) e)
pop_list obj_sz p (x ∷ xs) pos page e =
    let q : Page = with_free p xs ((p.in_use_num + 1) % 2 ^ 32) in
    let objects : All (IsObject obj_sz p.page_start) (x ∷ xs) =
      subst (λ l. All (IsObject obj_sz p.page_start) l) e page.objects in
    let unique : IsUnique (x ∷ xs) = subst IsUnique e page.unique in
    let here : has x p.free_list ≡ true = ap (has x) e ∙ rw (eq→== x x refl) refl in
    let others : (y : ℕ) → x ≢ y → has y p.free_list ≡ has y q.free_list =
      λ y ne. ap (has y) e ∙ has-head_other x y xs ne in
    let count : total (4096 / obj_sz) (handed obj_sz q)
        ≡ suc (total (4096 / obj_sz) (handed obj_sz p)) =
      total-object obj_sz p q x pos objects.0 refl here unique.0 others in
    (
      record {
        objects = objects.1;
        unique = unique.1;
        counted = omega (arith, count, page.counted, total-handed obj_sz q);
      },
      λ h. ground (arith, here, h.1),
      taken_out obj_sz p q x objects.0 refl unique.0 others here,
    )

-- Taking an object of a page, whose free list has objects of the page, each once, and whose count is
-- that of the others: with a free object the result is one that was not handed out, the objects handed
-- out after it are that one and those before, and the page stays so; without a free object the
-- routine would follow a null pointer, and then every object of the page is handed out.
pub pop_object-PopOutcome :
    (obj_sz : ℕ) (p : Page)
    → 0 < obj_sz
    → IsPage obj_sz p
    → PopOutcome obj_sz p (pop_object p p.free_list)
pop_object-PopOutcome obj_sz p pos page = pop_list obj_sz p p.free_list pos page refl

-- An object taken back is one that was handed out, and the others stay as they are.
abbrev pub PushOutcome : ℕ → ℕ → Page → Option Page → Type 0
PushOutcome obj_sz x p none = ¬ HandedOut obj_sz p x
PushOutcome obj_sz x p (some q) =
    IsPage obj_sz q
    × HandedOut obj_sz p x
    × ((y : ℕ) → HandedOut obj_sz q y ↔ ((y ≢ x) × HandedOut obj_sz p y))

push_back :
    (obj_sz x : ℕ) (p : Page)
    → 0 < obj_sz
    → IsObject obj_sz p.page_start x
    → IsPage obj_sz p
    → has x p.free_list ≡ false
    → PushOutcome obj_sz x p
        (some (with_free p (p.free_list ++ (x ∷ [])) ((p.in_use_num + 2 ^ 32 - 1) % 2 ^ 32)))
push_back obj_sz x p pos o page lacks =
    let q : Page = with_free p (p.free_list ++ (x ∷ [])) ((p.in_use_num + 2 ^ 32 - 1) % 2 ^ 32) in
    let here : has x q.free_list ≡ true = has-last x p.free_list in
    let others : (y : ℕ) → x ≢ y → has y q.free_list ≡ has y p.free_list =
      λ y. has-last_other x y p.free_list in
    let count : total (4096 / obj_sz) (handed obj_sz p)
        ≡ suc (total (4096 / obj_sz) (handed obj_sz q)) =
      total-object obj_sz q p x pos o refl here lacks others in
    let taken : (y : ℕ) → HandedOut obj_sz p y ↔ ((y ≡ x) ⊎ HandedOut obj_sz q y) =
      taken_out obj_sz q p x o refl lacks others here in
    (
      record {
        objects =
            All-append (IsObject obj_sz p.page_start) p.free_list (x ∷ []) page.objects (o, tt);
        unique = IsUnique-append p.free_list x page.unique lacks;
        counted = omega (arith, count, page.counted, total-handed obj_sz p);
      },
      (o, lacks),
      λ y. (
        λ h. (λ e. ground (arith, here, ap (λ a. has a q.free_list) e, h.1), (taken y).1 (inr h)),
        λ (ne, h). elim ((taken y).0 h) [ inl e ↦ absurd (ne e) | inr k ↦ k ],
      ),
    )

-- Putting back an address of an object of such a page: it is refused only when the object is not handed
-- out; otherwise the object was handed out, exactly the others stay handed out, and the page stays so.
pub push_free_list-PushOutcome :
    (obj_sz x : ℕ) (p : Page)
    → 0 < obj_sz
    → IsObject obj_sz p.page_start x
    → IsPage obj_sz p
    → PushOutcome obj_sz x p (push_free_list x p)
unfolding push_free_list
push_free_list-PushOutcome obj_sz x p pos o page = elim (Bool-cases (has x p.free_list)) [
  | inl e ↦ rw e (λ h. ground (arith, e, h.1))
  | inr e ↦ rw e (push_back obj_sz x p pos o page e)
]

-- A page cut into objects of a size that is a multiple of 4 and at most a page has a free list of
-- objects of the page, each once, a count that is that of the others, and no object handed out.
pub make_slab_obj-IsPage :
    (obj_sz : ℕ) (p : Page)
    → obj_sz / 4 * 4 ≡ obj_sz
    → 0 < 4096 / obj_sz
    → 0 < obj_sz
    → IsPage obj_sz (make_slab_obj obj_sz p)
      × ((x : ℕ) → ¬ HandedOut obj_sz (make_slab_obj obj_sz p) x)
unfolding make_slab_obj handed
make_slab_obj-IsPage obj_sz p words room pos =
    let free : List ℕ = link_objects (4096 / obj_sz - 1) p.page_start obj_sz in
    let start : p.page_start ≡ p.page_start + 0 * obj_sz = omega arith in
    let linked : (k : ℕ) → k < 4096 / obj_sz → has (p.page_start + k * obj_sz) free ≡ true = λ k lt.
      subst
        (λ a. has (p.page_start + k * obj_sz) (link_objects (4096 / obj_sz - 1) a obj_sz) ≡ true)
        (sym start)
        (link_objects-has obj_sz p.page_start (4096 / obj_sz - 1) 0 k (omega arith)
          (omega (arith, lt))) in
    rw words (
      record {
        objects =
            subst
              (λ a. All (IsObject obj_sz p.page_start) (link_objects (4096 / obj_sz - 1) a obj_sz))
              (sym start)
              (link_objects-All obj_sz p.page_start (4096 / obj_sz - 1) 0 (omega (arith, room)));
        unique = link_objects-IsUnique obj_sz (4096 / obj_sz - 1) p.page_start pos;
        counted = sym (
            total-zero (4096 / obj_sz) (λ k. if has (p.page_start + k * obj_sz) free then 0 else 1)
              (λ k lt. rw (linked k lt) refl));
      },
      λ x ((k, lt, e), lacks).
          (let here : has x free ≡ true = ap (λ a. has a free) e ∙ linked k lt in
            ground (arith, here, lacks)),
    )
