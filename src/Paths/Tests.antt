-- ===== src/Paths/Tests.antt =====
-- fs.c: the path //ab/c/ and a name that is too long.
use graduation_prj.Base.{ℕ, zero, suc, ◌≡◌, refl, List, [], ◌∷◌, length, Option, none, some, arith}
use graduation_prj.Paths.Defs.{skipelem, skip, element, after_element, path_names}
use graduation_prj.Paths.Elements.{
  FieldsOf, IsSplit, path_of, path_names-IsSplit, path_names-path_of,
}

abbrev path : List ℕ
path = 47 ∷ 47 ∷ 97 ∷ 98 ∷ 47 ∷ 99 ∷ 47 ∷ []

skipelem_twice_slash : skipelem path ≡ some (97 ∷ 98 ∷ [], 99 ∷ 47 ∷ [])
unfolding skipelem skip element after_element
skipelem_twice_slash = refl

-- Behind a bar a slash makes an empty name.
skipelem_empty : skipelem (124 ∷ 47 ∷ 97 ∷ []) ≡ some ([], 97 ∷ [])
unfolding skipelem skip element after_element
skipelem_empty = refl

abbrev long : ℕ → List ℕ
long zero = []
long (suc n) = 97 ∷ long n

abbrev name_length : Option (List ℕ × List ℕ) → ℕ
name_length none = 0
name_length (some (name, rest)) = length name

skipelem_cut : name_length (skipelem (long 20)) ≡ 14
unfolding skipelem skip element after_element
skipelem_cut = refl

path_names-IsSplit_example : IsSplit (path_names 8 path)
path_names-IsSplit_example = path_names-IsSplit 8 path (omega arith)

abbrev names : List (ℕ × List ℕ)
names = (1, 97 ∷ 98 ∷ []) ∷ (0, 99 ∷ []) ∷ []

path_names-path_of_example :
    (found : List (List ℕ)) × (path_names 3 (path_of names 1) ≡ some found) × FieldsOf names found
path_names-path_of_example =
    path_names-path_of 3 names 1
      (
        (λ e. omega (arith, e), (λ e. omega (arith, e), (λ e. omega (arith, e), tt))),
        ((λ e. omega (arith, e), (λ e. omega (arith, e), tt)), tt),
      )
      (omega arith)
