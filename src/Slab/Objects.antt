-- ===== src/Slab/Objects.antt =====
-- A page of objects as a set: which of its objects are handed out.
use graduation_prj.Base.{
  ℕ, zero, suc, ◌+◌, ◌*◌, ◌/◌, ◌≤◌, ◌<◌, ◌≡◌, ◌≢◌, inl, inr, refl, sym, ap, ◌∙◌, true, false, List,
  [], ◌∷◌, ◌++◌, total, All, arith, Bool-cases, ◌==◌, ==→ne, eq→==, ne→==, if◌then◌else◌,
}
use mathlib.Core.Path.{subst}
use graduation_prj.Slab.Defs.{Page, link_objects, has}

-- The address of an object of a page.
abbrev pub IsObject : ℕ → ℕ → ℕ → Type 0
IsObject obj_sz start x = (k : ℕ) × (k < 4096 / obj_sz) × (x ≡ start + k * obj_sz)

abbrev pub IsUnique : List ℕ → Type 0
IsUnique [] = Unit
IsUnique (x ∷ xs) = (has x xs ≡ false) × IsUnique xs

-- 1 for an object that is handed out.
unfoldable pub handed : ℕ → Page → ℕ → ℕ
handed obj_sz p k = if has (p.page_start + k * obj_sz) p.free_list then 0 else 1

-- The free list of a page has objects of the page, none twice, and the others are counted.
pub record IsPage (obj_sz : ℕ) (p : Page) : Type 0 where
  pub objects : All (IsObject obj_sz p.page_start) p.free_list
  pub unique : IsUnique p.free_list
  pub counted : p.in_use_num ≡ total (4096 / obj_sz) (handed obj_sz p)

-- The abstract state: the objects that are handed out.
abbrev pub HandedOut : ℕ → Page → ℕ → Type 0
HandedOut obj_sz p x = IsObject obj_sz p.page_start x × (has x p.free_list ≡ false)

pub has-append :
    (x : ℕ) (xs ys : List ℕ) → has x xs ≡ false → has x ys ≡ false → has x (xs ++ ys) ≡ false
has-append x [] ys h k = k
has-append x (y ∷ xs) ys h k = elim (Bool-cases (y == x)) [
  | inl e ↦ absurd (ground (arith, h, e))
  | inr e ↦ rw e (has-append x xs ys (sym (rw e refl) ∙ h) k)
]

pub has-append_left : (x : ℕ) (xs ys : List ℕ) → has x (xs ++ ys) ≡ false → has x xs ≡ false
has-append_left x [] ys h = refl
has-append_left x (y ∷ xs) ys h = elim (Bool-cases (y == x)) [
  | inl e ↦ absurd (ground (arith, h, e))
  | inr e ↦ rw e (has-append_left x xs ys (sym (rw e refl) ∙ h))
]

pub has-append_last : (x : ℕ) (xs : List ℕ) (y : ℕ) → has x (xs ++ (y ∷ [])) ≡ false → y ≢ x
has-append_last x [] y h e = ground (arith, h, eq→== y x e)
has-append_last x (z ∷ xs) y h e = elim (Bool-cases (z == x)) [
  | inl k ↦ absurd (ground (arith, h, k))
  | inr k ↦ has-append_last x xs y (sym (rw k refl) ∙ h) e
]

pub IsUnique-append :
    (xs : List ℕ) (y : ℕ) → IsUnique xs → has y xs ≡ false → IsUnique (xs ++ (y ∷ []))
IsUnique-append [] y u h = (refl, tt)
IsUnique-append (x ∷ xs) y u h = elim (Bool-cases (x == y)) [
  | inl e ↦ absurd (ground (arith, h, e))
  | inr e ↦ (
    has-append x xs (y ∷ []) u.0 (rw (ne→== y x (λ c. ==→ne x y e (sym c))) refl),
    IsUnique-append xs y u.1 (sym (rw e refl) ∙ h),
  )
]

-- The objects linked from `k` on.
pub link_objects-All :
    (obj_sz start count k : ℕ)
    → k + count < 4096 / obj_sz
    → All (IsObject obj_sz start) (link_objects count (start + k * obj_sz) obj_sz)
unfolding link_objects
link_objects-All obj_sz start zero k lt = ((k, omega arith, refl), tt)
link_objects-All obj_sz start (suc count) k lt =
    let e : start + k * obj_sz + obj_sz ≡ start + (k + 1) * obj_sz = grind arith in
    (
      (k, omega arith, refl),
      subst (λ a. All (IsObject obj_sz start) (link_objects count a obj_sz)) (sym e)
          (link_objects-All obj_sz start count (k + 1) (omega arith)),
    )

link_objects-above :
    (obj_sz count a x : ℕ) → 0 < obj_sz → x < a → has x (link_objects count a obj_sz) ≡ false
unfolding link_objects
link_objects-above obj_sz zero a x pos lt = rw (ne→== a x (λ e. omega (arith, e, lt))) refl
link_objects-above obj_sz (suc count) a x pos lt =
    rw (ne→== a x (λ e. omega (arith, e, lt)))
      (link_objects-above obj_sz count (a + obj_sz) x pos (omega arith))

pub link_objects-IsUnique :
    (obj_sz count a : ℕ) → 0 < obj_sz → IsUnique (link_objects count a obj_sz)
unfolding link_objects
link_objects-IsUnique obj_sz zero a pos = (refl, tt)
link_objects-IsUnique obj_sz (suc count) a pos = (
  link_objects-above obj_sz count (a + obj_sz) a pos (omega arith),
  link_objects-IsUnique obj_sz count (a + obj_sz) pos,
)

-- Every object is linked.
pub link_objects-has :
    (obj_sz start count k j : ℕ)
    → k ≤ j
    → j ≤ k + count
    → has (start + j * obj_sz) (link_objects count (start + k * obj_sz) obj_sz) ≡ true
unfolding link_objects
link_objects-has obj_sz start zero k j le high =
    let e : start + k * obj_sz ≡ start + j * obj_sz = ap (λ i. start + i * obj_sz) (omega arith) in
    rw (eq→== (start + k * obj_sz) (start + j * obj_sz) e) refl
link_objects-has obj_sz start (suc count) k j le high =
    elim (Bool-cases (start + k * obj_sz == start + j * obj_sz)) [
      | inl e ↦ rw e refl
      | inr e ↦
          let next : start + k * obj_sz + obj_sz ≡ start + (k + 1) * obj_sz = grind arith in
          let ne : k ≢ j = λ same.
            ==→ne (start + k * obj_sz) (start + j * obj_sz) e (ap (λ i. start + i * obj_sz) same) in
          rw e (
            subst (λ a. has (start + j * obj_sz) (link_objects count a obj_sz) ≡ true) (sym next)
              (link_objects-has obj_sz start count (k + 1) j (omega (arith, ne)) (omega arith)))
    ]

pub has-head_other : (x y : ℕ) (xs : List ℕ) → x ≢ y → has y (x ∷ xs) ≡ has y xs
has-head_other x y xs ne = rw (ne→== x y ne) refl

pub has-last_other : (x y : ℕ) (xs : List ℕ) → x ≢ y → has y (xs ++ (x ∷ [])) ≡ has y xs
has-last_other x y [] ne = rw (ne→== x y ne) refl
has-last_other x y (z ∷ xs) ne = elim (Bool-cases (z == y)) [
  | inl e ↦ rw e refl
  | inr e ↦ rw e (has-last_other x y xs ne)
]

pub has-last : (x : ℕ) (xs : List ℕ) → has x (xs ++ (x ∷ [])) ≡ true
has-last x [] = rw (eq→== x x refl) refl
has-last x (z ∷ xs) = elim (Bool-cases (z == x)) [
  | inl e ↦ rw e refl
  | inr e ↦ rw e (has-last x xs)
]
