-- ===== src/Paths/Elements.antt =====
-- fs.c: the names that a path is made of, and that the loop over them ends.
use graduation_prj.Base.{
  sym, ltb, ltb→lt, ltb→le, append-nil, ◌⊎◌, ℕ, zero, suc, ◌≤◌, ◌<◌, ◌≡◌, ◌≢◌, inl, inr, refl, ap,
  ◌∙◌, List, [], ◌∷◌, ◌++◌, length, All, map, Option, none, some, arith, Bool-cases, ◌==◌, eq→==,
  ne→==,
}
use graduation_prj.Paths.Defs.{
  take, slash, bar, skip, element, after_element, to_name, split_path, skipelem, put_first,
  then_names, path_names,
}

skip-length : (c : ℕ) (xs : List ℕ) → length (skip c xs) ≤ length xs
unfolding skip
skip-length c [] = omega arith
skip-length c (x ∷ xs) = elim (Bool-cases (x == c)) [
  | inl e ↦ rw e (omega (arith, skip-length c xs))
  | inr e ↦ rw e (omega arith)
]

after_element-length : (xs : List ℕ) → length (after_element xs) ≤ length xs
unfolding after_element
after_element-length [] = omega arith
after_element-length (x ∷ xs) = elim (Bool-cases (x == slash)) [
  | inl e ↦ rw e (omega arith)
  | inr e ↦ rw e (omega (arith, after_element-length xs))
]

-- The first byte goes, as a part of the name or as a slash.
rest-length : (x : ℕ) (xs : List ℕ) → length (skip slash (after_element (x ∷ xs))) ≤ length xs
unfolding skip after_element
rest-length x xs = elim (Bool-cases (x == slash)) [
  | inl e ↦ rw e (rw e (skip-length slash xs))
  | inr e ↦ rw e (omega (arith, skip-length slash (after_element xs), after_element-length xs))
]

-- The names are found.
abbrev pub IsSplit : Option (List (List ℕ)) → Type 0
IsSplit none = ⊥
IsSplit (some names) = Unit

IsSplit-put_first :
    (name : List ℕ) (o : Option (List (List ℕ))) → IsSplit o → IsSplit (put_first name o)
IsSplit-put_first name none h = absurd h
IsSplit-put_first name (some names) h = tt

split_path-IsSplit :
    (bound : ℕ) (next : List ℕ → Option (List (List ℕ))) (path : List ℕ)
    → length path ≤ bound
    → ((rest : List ℕ) → length rest < bound → IsSplit (next rest))
    → IsSplit (then_names next (split_path path))
split_path-IsSplit bound next [] le ends = tt
split_path-IsSplit bound next (x ∷ xs) le ends =
    IsSplit-put_first (to_name (element (x ∷ xs))) (next (skip slash (after_element (x ∷ xs))))
      (ends (skip slash (after_element (x ∷ xs))) (omega (arith, rest-length x xs, le)))

-- The loop of namex over the elements of a path ends: as many rounds as the path has bytes, and one more
-- for the last test, are enough, for any path.
pub path_names-IsSplit :
    (rounds : ℕ) (path : List ℕ) → length path < rounds → IsSplit (path_names rounds path)
unfolding path_names skipelem
path_names-IsSplit zero path lt = absurd (omega arith)
path_names-IsSplit (suc rounds) path lt =
    split_path-IsSplit rounds (path_names rounds) (skip bar (skip slash path))
      (omega (arith, lt, skip-length bar (skip slash path), skip-length slash path))
      (λ rest less. path_names-IsSplit rounds rest less)

abbrev pub slashes : ℕ → List ℕ → List ℕ
slashes zero path = path
slashes (suc n) path = slash ∷ slashes n path

-- Names, each with one slash or more in front, and slashes behind the last.
abbrev pub path_of : List (ℕ × List ℕ) → ℕ → List ℕ
path_of [] tail = slashes tail []
path_of ((more, name) ∷ names) tail = slashes (suc more) (name ++ path_of names tail)

-- A name has a byte, no slash, and no bar in front.
abbrev pub IsName : List ℕ → Type 0
IsName [] = ⊥
IsName (x ∷ xs) = (x ≢ bar) × All (λ y. y ≢ slash) (x ∷ xs)

abbrev IsEnd : List ℕ → Type 0
IsEnd [] = Unit
IsEnd (x ∷ xs) = x ≡ slash

path_of-IsEnd : (names : List (ℕ × List ℕ)) (tail : ℕ) → IsEnd (path_of names tail)
path_of-IsEnd [] zero = tt
path_of-IsEnd [] (suc tail) = refl
path_of-IsEnd ((more, name) ∷ names) tail = refl

skip-slashes : (n : ℕ) (path : List ℕ) → skip slash (slashes n path) ≡ skip slash path
unfolding skip
skip-slashes zero path = refl
skip-slashes (suc n) path = skip-slashes n path

skip_twice : (path : List ℕ) → skip slash (skip slash path) ≡ skip slash path
unfolding skip
skip_twice [] = refl
skip_twice (x ∷ xs) = elim (Bool-cases (x == slash)) [
  | inl e ↦ rw e (skip_twice xs)
  | inr e ↦ rw e (rw e refl)
]

element-append :
    (name path : List ℕ) → All (λ y. y ≢ slash) name → IsEnd path → element (name ++ path) ≡ name
unfolding element
element-append [] [] h end = refl
element-append [] (x ∷ xs) h end = rw (eq→== x slash end) refl
element-append (x ∷ xs) path h end =
    rw (ne→== x slash h.0) (ap (λ l. x ∷ l) (element-append xs path h.1 end))

after_element-append :
    (name path : List ℕ)
    → All (λ y. y ≢ slash) name
    → IsEnd path
    → after_element (name ++ path) ≡ path
unfolding after_element
after_element-append [] [] h end = refl
after_element-append [] (x ∷ xs) h end = rw (eq→== x slash end) refl
after_element-append (x ∷ xs) path h end =
    rw (ne→== x slash h.0) (after_element-append xs path h.1 end)

skip-other : (c x : ℕ) (xs : List ℕ) → x ≢ c → skip c (x ∷ xs) ≡ x ∷ xs
unfolding skip
skip-other c x xs ne = rw (ne→== x c ne) refl

skipelem-name :
    (name path : List ℕ)
    → IsName name
    → IsEnd path
    → skipelem (name ++ path) ≡ some (to_name name, skip slash path)
unfolding skipelem
skipelem-name [] path h end = absurd h
skipelem-name (x ∷ xs) path (no_bar, plain) end =
    ap (λ p. split_path (skip bar p)) (skip-other slash x (xs ++ path) plain.0)
    ∙ ap split_path (skip-other bar x (xs ++ path) no_bar)
    ∙ ap (λ n. some (to_name n, skip slash (after_element ((x ∷ xs) ++ path))))
        (element-append (x ∷ xs) path plain end)
    ∙ ap (λ p. some (to_name (x ∷ xs), skip slash p)) (after_element-append (x ∷ xs) path plain end)

skipelem-skip : (path : List ℕ) → skipelem (skip slash path) ≡ skipelem path
unfolding skipelem
skipelem-skip path = ap (λ p. split_path (skip bar p)) (skip_twice path)

skipelem-slashes : (n : ℕ) (path : List ℕ) → skipelem (slashes n path) ≡ skipelem path
unfolding skipelem
skipelem-slashes n path = ap (λ p. split_path (skip bar p)) (skip-slashes n path)

path_names-skip :
    (rounds : ℕ) (path : List ℕ) → path_names rounds (skip slash path) ≡ path_names rounds path
unfolding path_names
path_names-skip zero path = refl
path_names-skip (suc rounds) path = ap (then_names (path_names rounds)) (skipelem-skip path)

-- The name that a field of 14 bytes has for a name of any length: its first bytes, all of them or 14.
abbrev pub FieldOf : List ℕ → List ℕ → Type 0
FieldOf name field =
    (rest : List ℕ) × (name ≡ field ++ rest)
    × (((rest ≡ []) × (length field ≤ 14)) ⊎ (length field ≡ 14))

abbrev pub FieldsOf : List (ℕ × List ℕ) → List (List ℕ) → Type 0
FieldsOf [] [] = Unit
FieldsOf [] (field ∷ fields) = ⊥
FieldsOf ((more, name) ∷ names) [] = ⊥
FieldsOf ((more, name) ∷ names) (field ∷ fields) = FieldOf name field × FieldsOf names fields

take-cut :
    (n : ℕ) (name : List ℕ)
    → n ≤ length name
    → (rest : List ℕ) × (name ≡ take n name ++ rest) × (length (take n name) ≡ n)
take-cut zero name le = (name, refl, refl)
take-cut (suc n) [] le = absurd (omega (arith, le))
take-cut (suc n) (x ∷ xs) le =
    let (rest, e, len) = take-cut n xs (omega (arith, le)) in (rest, ap (λ l. x ∷ l) e, ap suc len)

to_name-FieldOf : (name : List ℕ) → FieldOf name (to_name name)
to_name-FieldOf name = elim (Bool-cases (ltb (length name) 14)) [
  | inl short ↦
      rw short ([], sym (append-nil name), inl (refl, omega (arith, ltb→lt (length name) 14 short)))
  | inr long ↦
      let (rest, e, len) = take-cut 14 name (ltb→le (length name) 14 long) in
      rw long (rest, e, inr len)
]

to_names-FieldsOf :
    (names : List (ℕ × List ℕ)) → FieldsOf names (map (λ (_, name). to_name name) names)
to_names-FieldsOf [] = tt
to_names-FieldsOf ((more, name) ∷ names) = (to_name-FieldOf name, to_names-FieldsOf names)

split_names :
    (rounds : ℕ) (names : List (ℕ × List ℕ)) (tail : ℕ)
    → All (λ (_, name). IsName name) names
    → length names < rounds
    → path_names rounds (path_of names tail) ≡ some (map (λ (_, name). to_name name) names)
unfolding path_names skipelem skip
split_names zero names tail all lt = absurd (omega arith)
split_names (suc rounds) [] tail all lt =
    ap (then_names (path_names rounds)) (skipelem-slashes tail [])
split_names (suc rounds) ((more, name) ∷ names) tail all lt =
    ap (then_names (path_names rounds)) (
      skipelem-slashes (suc more) (name ++ path_of names tail)
      ∙ skipelem-name name (path_of names tail) all.0 (path_of-IsEnd names tail))
    ∙ ap (put_first (to_name name)) (
        path_names-skip rounds (path_of names tail)
        ∙ split_names rounds names tail all.1 (omega (arith, lt)))

-- A path that is written from names, each with at least one slash in front and any number behind the
-- last, is split into as many names in the same order, each the first bytes of the one written: all of
-- them, at most 14, or exactly 14. The names have a byte, no slash, and no bar in front, and there is a
-- round for each name and one more.
pub path_names-path_of :
    (rounds : ℕ) (names : List (ℕ × List ℕ)) (tail : ℕ)
    → All (λ (_, name). IsName name) names
    → length names < rounds
    → (found : List (List ℕ)) × (path_names rounds (path_of names tail) ≡ some found)
      × FieldsOf names found
path_names-path_of rounds names tail all lt = (
  map (λ (_, name). to_name name) names,
  split_names rounds names tail all lt,
  to_names-FieldsOf names,
)
