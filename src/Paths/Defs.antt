-- ===== src/Paths/Defs.antt =====
-- fs.c: skipelem. A path is the list of its bytes before the one that is 0; what stays of it is the path
-- from the pointer that the C returns on. A name is the string in its field.
use graduation_prj.Base.{
  ℕ, zero, suc, List, [], ◌∷◌, Option, none, some, ltb, ◌==◌, if◌then◌else◌, length,
}

abbrev pub dirsiz : ℕ
dirsiz = 14

-- The bytes `/` and `|`.
abbrev pub slash : ℕ
slash = 47

abbrev pub bar : ℕ
bar = 124

-- `while(*path == c) path++`
unfoldable pub skip : ℕ → List ℕ → List ℕ
skip c [] = []
skip c (x ∷ xs) = let rest = skip c xs in if x == c then rest else x ∷ xs

-- `while(*path != '/' && *path != 0) path++`: the bytes that are passed, and where it stops.
unfoldable pub element : List ℕ → List ℕ
element [] = []
element (x ∷ xs) = let rest = element xs in if x == slash then [] else x ∷ rest

unfoldable pub after_element : List ℕ → List ℕ
after_element [] = []
after_element (x ∷ xs) = let rest = after_element xs in if x == slash then x ∷ xs else rest

-- `memmove(name, s, n)`
abbrev pub take : ℕ → List ℕ → List ℕ
take zero xs = []
take (suc n) [] = []
take (suc n) (x ∷ xs) = x ∷ take n xs

-- A name of DIRSIZ bytes or more is cut, and has no 0 behind it.
abbrev pub to_name : List ℕ → List ℕ
to_name s = if ltb (length s) dirsiz then s else take dirsiz s

abbrev pub split_path : List ℕ → Option (List ℕ × List ℕ)
split_path [] = none
split_path (x ∷ xs) = some (to_name (element (x ∷ xs)), skip slash (after_element (x ∷ xs)))

-- The name, and the path behind it; `none` is the result 0.
unfoldable pub skipelem : List ℕ → Option (List ℕ × List ℕ)
skipelem path = split_path (skip bar (skip slash path))

abbrev pub put_first : List ℕ → Option (List (List ℕ)) → Option (List (List ℕ))
put_first name none = none
put_first name (some names) = some (name ∷ names)

abbrev pub then_names :
    (List ℕ → Option (List (List ℕ))) → Option (List ℕ × List ℕ) → Option (List (List ℕ))
then_names next none = some []
then_names next (some (name, rest)) = put_first name (next rest)

-- The names that the loop `while((path = skipelem(path, name)) != 0)` of namex sees, with the rounds left;
-- `none` is a loop that has no more rounds.
unfoldable pub path_names : ℕ → List ℕ → Option (List (List ℕ))
path_names zero path = none
path_names (suc rounds) path = then_names (path_names rounds) (skipelem path)
